-- ===== src/Broker/Slots/Open.antt =====
-- The slots when a publisher registers, in src/broker.cpp.
use mathlib.Core.Option.{some-injective}
use drive_bus.Prelude.{
  ℕ, ◌+◌, ◌≡◌, List, [], ◌∷◌, ◌++◌, Option, none, some, Bool, Bool-cases, inl, inr, true, false,
  not, ◌&&◌, ◌||◌, ◌==◌, ltb, tick, find, put, get_or, length, refl, subst, ap, ◌∙◌, arith,
  if◌then◌else◌,
}
use drive_bus.Bytes.{to_bytes}
use drive_bus.Layout.{max_subscribers}
use drive_bus.Protocol.{Cmsg}
use drive_bus.Broker.{
  Broker, SubscriberAttachment, System, send, update2, init_available_subscriber_slots,
}
use drive_bus.Broker.Register.{
  attach_slot, attach_subscriber, attach_subscribers, open_topic, is_none, register_publisher_fds,
  register_publisher, send_subscriber_attachment_batch_message,
}
use drive_bus.Broker.Slots.{
  count_free, count_held, count_all_held, slot_count, and_then-some, send-same, count_held-append,
}
use drive_bus.Broker.Slots.Join.{attach_slot-Taken, send_batch-same}
use drive_bus.Broker.Slots.Init.{count-init_available_subscriber_slots}

-- An entry of the table that is replaced.
pub count_all_held-put :
    (fd : ℕ) (m : List (ℕ × List SubscriberAttachment)) {atts : List SubscriberAttachment}
    (new : List SubscriberAttachment) (t q k : ℕ)
    → find fd m ≡ some atts
    → count_all_held (put fd new m) t q k + count_held atts t q k
      ≡ count_all_held m t q k + count_held new t q k
unfolding find put count_all_held
count_all_held-put fd [] new t q k e = absurd (ground arith)
count_all_held-put fd ((j, v) ∷ m) {atts} new t q k e = elim (Bool-cases (j == fd)) [
  | inl c ↦ rw c (
      subst
        (λ x.
          (count_held new t q k + count_all_held m t q k) + count_held x t q k
          ≡ (count_held v t q k + count_all_held m t q k) + count_held new t q k)
        (some-injective v atts (rw c at e)) (omega arith))
  | inr c ↦
      rw c (beside (count_held v t q k) _ _ _ _ (count_all_held-put fd m new t q k (rw c at e)))
]
  where
    beside : (n x y z w : ℕ) → x + y ≡ z + w → (n + x) + y ≡ (n + z) + w
    beside n x y z w e = omega arith

attach_subscriber-slot_count :
    (sys : System) (topic fd shm_fd space_fd x : ℕ) (b : Broker) {b' : Broker} (t q k : ℕ)
    → attach_subscriber sys topic fd shm_fd space_fd x b ≡ some b'
    → slot_count b' t q k ≡ slot_count b t q k
unfolding attach_subscriber
attach_subscriber-slot_count sys topic fd shm_fd space_fd x b {b'} t q k e =
    let (data_fd, e1, f1) = and_then-some (sys.event_fd b.next_attachment_id) _ e in
    let (heap, e2, f2) = and_then-some (b.available_slots topic fd) _ f1 in
    let (r, e3, f3) = and_then-some (attach_slot sys topic fd space_fd data_fd b heap) _ f2 in
    let (b1, e4, f4) =
      and_then-some (send_subscriber_attachment_batch_message sys r.0 x (r.1 ∷ []) (shm_fd ∷ [])) _
        f3 in
    let (atts, e5, f5) = and_then-some (find x b1.attachments) _ f4 in
    let (slots, held) = attach_slot-Taken sys topic fd space_fd data_fd b heap e2 e3 in
    let (slots1, held1) = send_batch-same sys r.0 x (r.1 ∷ []) (shm_fd ∷ []) e4 in
    subst (λ y. slot_count y t q k ≡ slot_count b t q k) (some-injective _ b' f5)
      (settled _ _ _ _ _ _ _ _ (ap (λ f. count_free (f t q) k) slots1) (slots t q k)
        (count_all_held-put x b1.attachments (atts ++ r.1 ∷ []) t q k e5)
        (count_held-append atts r.1 t q k) (ap (λ m. count_all_held m t q k) (held1 ∙ held)))
  where
    settled :
        (free1 freer free mark put' mine all1 all : ℕ)
        → free1 ≡ freer
        → freer + mark ≡ free
        → {new : ℕ} → put' + mine ≡ all1 + new
        → new ≡ mine + mark
        → all1 ≡ all
        → free1 + put' ≡ free + all
    settled free1 freer free mark put' mine all1 all a b c d e = omega arith

attach_subscribers-slot_count :
    (sys : System) (topic fd shm_fd space_fd : ℕ) (xs : List ℕ) (b : Broker) {b' : Broker}
    (t q k : ℕ)
    → attach_subscribers sys topic fd shm_fd space_fd xs b ≡ some b'
    → slot_count b' t q k ≡ slot_count b t q k
unfolding attach_subscribers
attach_subscribers-slot_count sys topic fd shm_fd space_fd [] b {b'} t q k e =
    subst (λ y. slot_count y t q k ≡ slot_count b t q k) (some-injective b b' e) refl
attach_subscribers-slot_count sys topic fd shm_fd space_fd (x ∷ xs) b {b'} t q k e =
    let (b1, e1, f1) = and_then-some (attach_subscriber sys topic fd shm_fd space_fd x b) _ e in
    attach_subscribers-slot_count sys topic fd shm_fd space_fd xs b1 t q k f1
    ∙ attach_subscriber-slot_count sys topic fd shm_fd space_fd x b t q k e1

-- A test that stops the broker has not stopped it.
passed :
    {A : Type 0} (d : Bool) (x : Option A) {r : A} → (if d then none else x) ≡ some r → x ≡ some r
passed true x e = absurd (ground arith)
passed false x e = e

open_topic-slot_count :
    (sys : System) (topic fd shm_fd space_fd : ℕ) (waiting : List ℕ) (b : Broker) {b' : Broker}
    (t q k : ℕ)
    → open_topic sys topic fd shm_fd space_fd waiting b ≡ some b'
    → slot_count b' t q k ≡ slot_count b t q k
unfolding open_topic
open_topic-slot_count sys topic fd shm_fd space_fd waiting b {b'} t q k e =
    let f0 = passed (ltb max_subscribers (length waiting)) _ e in
    let (b1, e1, f1) = and_then-some (send sys b fd (to_bytes 4 (length waiting)) []) _ f0 in
    let (b2, e2, f2) =
      and_then-some (attach_subscribers sys topic fd shm_fd space_fd waiting b1) _ f1 in
    let (slots, held) = send-same sys b _ _ _ e1 in
    subst (λ y. slot_count y t q k ≡ slot_count b t q k) (some-injective _ b' f2)
      (attach_subscribers-slot_count sys topic fd shm_fd space_fd waiting b1 t q k e2
        ∙ sums (ap (λ f. count_free (f t q) k) slots) (ap (λ m. count_all_held m t q k) held))
  where
    sums : {x y z w : ℕ} → x ≡ y → z ≡ w → x + z ≡ y + w
    sums e f = omega arith

-- The free slots after a publisher has got a whole heap, at every topic and publisher.
abbrev pub free_after : Broker → ℕ → ℕ → ℕ → ℕ → ℕ → ℕ
free_after b topic fd t q k =
    if (topic == t) && (fd == q)
    then tick (ltb k max_subscribers)
    else count_free (b.available_slots t q) k

fresh-count :
    (b : Broker) (topic fd t q k : ℕ)
    → count_free
        (update2 b.available_slots topic fd (some (init_available_subscriber_slots [])) t q)
        k
      ≡ free_after b topic fd t q k
fresh-count b topic fd t q k = elim (Bool-cases ((topic == t) && (fd == q))) [
  | inl c ↦ rw c (count-init_available_subscriber_slots k)
  | inr c ↦ rw c refl
]

register_publisher_fds-slot_count :
    (sys : System) (fd topic : ℕ) (fds : List ℕ) (b : Broker) {b' : Broker} (t q k : ℕ)
    → register_publisher_fds sys fd topic fds b ≡ some b'
    → slot_count b' t q k ≡ free_after b topic fd t q k + count_all_held b.attachments t q k
unfolding register_publisher_fds
register_publisher_fds-slot_count sys fd topic [] b t q k e = absurd (ground arith)
register_publisher_fds-slot_count sys fd topic (x ∷ []) b t q k e = absurd (ground arith)
register_publisher_fds-slot_count sys fd topic (x ∷ y ∷ rest) b t q k e =
    open_topic-slot_count sys topic fd x y _ _ t q k (
      passed
        (not (is_none (find fd b.shm_fds))
          || not (is_none (find fd b.space_event_fds))
          || not (is_none (b.available_slots topic fd)))
        _ e)
    ∙ ap (λ n. n + count_all_held b.attachments t q k) (fresh-count b topic fd t q k)

-- When the broker registers a publisher and goes on, the times that a slot stands in its tables are: for
-- the new publisher and its topic, one for each slot below 16 and none for other numbers, and those that
-- it was held by an attachment before; for every other publisher or topic, those before.
pub register_publisher-slot_count :
    (sys : System) (fd : ℕ) (bytes : List ℕ) (stale : ℕ) (c : Option Cmsg) (b : Broker)
    {b' : Broker} (t q k : ℕ)
    → register_publisher sys fd bytes stale c b ≡ some b'
    → slot_count b' t q k
      ≡ (if (get_or bytes 1 stale == t) && (fd == q)
          then tick (ltb k max_subscribers)
          else count_free (b.available_slots t q) k)
        + count_all_held b.attachments t q k
unfolding register_publisher
register_publisher-slot_count sys fd bytes stale none b t q k e = absurd (ground arith)
register_publisher-slot_count sys fd bytes stale (some c) b t q k e =
    register_publisher_fds-slot_count sys fd (get_or bytes 1 stale) c.fds b t q k
      (passed (not c.is_rights || not (c.fd_data_size == 8)) _ e)
