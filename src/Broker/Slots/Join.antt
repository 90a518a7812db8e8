-- ===== src/Broker/Slots/Join.antt =====
-- The slots that the registration of a subscriber gives out, in src/broker.cpp.
use native.Mathlib.Omega.{arith}
use mathlib.Core.Option.{some-injective}
use drive_bus.Prelude.{
  ℕ, ◌+◌, List, [], ◌∷◌, Option, none, some, Bool, true, false, ◌≡◌, tick, count, if◌then◌else◌,
  refl, sym, subst, ◌∙◌,
}
use drive_bus.Broker.{Broker, SubscriberAttachment, System, send, update2}
use drive_bus.Broker.Register.{
  count_attachment, attach_slot, Registering, send_subscriber_attachment_batch_message,
}
use drive_bus.Broker.Slots.{count_free, holds, count_held, and_then-some, send-same, update2-tick}

-- Where the broker's tables and one attachment come from: the free slots of `b`, less that one.
abbrev Taken : Broker → Broker × SubscriberAttachment → Type 0
Taken b r =
    ((t q k : ℕ)
      → count_free (r.0.available_slots t q) k + tick (holds r.1 t q k)
        ≡ count_free (b.available_slots t q) k)
    × (r.0.attachments ≡ b.attachments)

counted_if :
    (d : Bool) (b b0 : Broker) (a : SubscriberAttachment) {r : Broker × SubscriberAttachment}
    → b0.available_slots ≡ b.available_slots
    → b0.attachments ≡ b.attachments
    → (if d then none else some (b0, a)) ≡ some r
    → (r.0.available_slots ≡ b.available_slots) × (r.0.attachments ≡ b.attachments) × (r.1 ≡ a)
counted_if true b b0 a h g e = absurd (ground arith)
counted_if false b b0 a {r} h g e =
    subst
      (λ x.
        (x.0.available_slots ≡ b.available_slots) × (x.0.attachments ≡ b.attachments) × (x.1 ≡ a))
      (some-injective (b0, a) r e) (h, g, refl)

counted :
    (b : Broker) (a : SubscriberAttachment) {r : Broker × SubscriberAttachment}
    → count_attachment b a ≡ some r
    → (r.0.available_slots ≡ b.available_slots) × (r.0.attachments ≡ b.attachments) × (r.1 ≡ a)
unfolding count_attachment
counted b a e = counted_if _ b _ a refl refl e

pub attach_slot-Taken :
    (sys : System) (topic publisher_fd space_fd data_fd : ℕ) (b : Broker) (heap : List ℕ)
    {r : Broker × SubscriberAttachment}
    → b.available_slots topic publisher_fd ≡ some heap
    → attach_slot sys topic publisher_fd space_fd data_fd b heap ≡ some r
    → Taken b r
unfolding attach_slot count
attach_slot-Taken sys topic publisher_fd space_fd data_fd b [] {r} h e = absurd (ground arith)
attach_slot-Taken sys topic publisher_fd space_fd data_fd b (slot ∷ heap) {r} h e =
    let (b', es, ec) = and_then-some (send sys _ _ _ _) _ e in
    let (slots', held') = send-same sys _ _ _ _ es in
    let (slots'', held'', a) = counted b' _ ec in
    (
      λ t q k.
          subst
            (λ x.
              count_free (x t q) k + tick (holds r.1 t q k) ≡ count_free (b.available_slots t q) k)
            (sym (slots'' ∙ slots'))
            (subst
              (λ x.
                count_free (update2 b.available_slots topic publisher_fd (some heap) t q) k
                  + tick (holds x t q k)
                ≡ count_free (b.available_slots t q) k)
              (sym a)
              (update2-tick b.available_slots topic publisher_fd t q slot k (slot ∷ heap) heap h
                (omega arith))),
      held'' ∙ held',
    )

-- A step of a registration gives out what it takes, and leaves the table of attachments.
abbrev Keeps : Registering → Registering → Type 0
Keeps r r' =
    ((t q k : ℕ)
      → count_free (r'.0.available_slots t q) k + count_held r'.1 t q k
        ≡ count_free (r.0.available_slots t q) k + count_held r.1 t q k)
    × (r'.0.attachments ≡ r.0.attachments)

batch_sent :
    (d : Bool) (sys : System) (b : Broker) (fd : ℕ) (bytes fds : List ℕ) {b' : Broker}
    → (if d then none else send sys b fd bytes fds) ≡ some b'
    → (b'.available_slots ≡ b.available_slots) × (b'.attachments ≡ b.attachments)
batch_sent true sys b fd bytes fds e = absurd (ground arith)
batch_sent false sys b fd bytes fds e = send-same sys b fd bytes fds e

pub send_batch-same :
    (sys : System) (b : Broker) (fd : ℕ) (atts : List SubscriberAttachment) (shms : List ℕ)
    {b' : Broker}
    → send_subscriber_attachment_batch_message sys b fd atts shms ≡ some b'
    → (b'.available_slots ≡ b.available_slots) × (b'.attachments ≡ b.attachments)
unfolding send_subscriber_attachment_batch_message
send_batch-same sys b fd atts shms e = batch_sent _ sys b fd _ _ e
