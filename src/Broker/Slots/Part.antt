-- ===== src/Broker/Slots/Part.antt =====
-- The slots that come back when a subscriber leaves, in src/broker.cpp.
use native.Mathlib.Omega.{arith}
use mathlib.Core.Option.{some-injective}
use drive_bus.Prelude.{
  ℕ, ◌+◌, List, [], ◌∷◌, Option, some, Bool-cases, inl, inr, true, ◌==◌, ◌&&◌, ◌≡◌, tick, refl, sym,
  subst, ap, ◌∙◌, find, erase,
}
use drive_bus.Broker.{Broker, SubscriberAttachment, System, send, update2, emplace}
use drive_bus.Broker.Leave.{
  release_attachment, release_attachments, leave_topic, leave_topics, remove,
  handle_subscriber_disconnect,
}
use drive_bus.Broker.Slots.{
  count_free, holds, count_held, count_all_held, and_then-some, send-same, count-emplace,
}

-- One publisher's heap with one slot more.
update2-untick :
    (f : ℕ → ℕ → Option (List ℕ)) (t q t' q' slot k : ℕ) (heap : List ℕ)
    → f t q ≡ some heap
    → count_free (update2 f t q (some (emplace slot heap)) t' q') k
      ≡ tick (((t == t') && (q == q')) && (slot == k)) + count_free (f t' q') k
update2-untick f t q t' q' slot k heap e = elim (Bool-cases ((t == t') && (q == q'))) [
  | inl c ↦ rw (c, same c) (count-emplace k slot heap)
  | inr c ↦ rw c (omega arith)
]
  where
    same : ((t == t') && (q == q')) ≡ true → f t' q' ≡ some heap
    same c =
        subst (λ x. f x q' ≡ some heap) (ground arith)
          (subst (λ y. f t y ≡ some heap) (ground arith) e)

-- Whose slots are free again, with the table of attachments left as it was.
abbrev Returned : Broker → List SubscriberAttachment → Broker → Type 0
Returned b atts b' =
    ((t q k : ℕ)
      → count_free (b'.available_slots t q) k
        ≡ count_held atts t q k + count_free (b.available_slots t q) k)
    × (b'.attachments ≡ b.attachments)

release_attachment-Returned :
    (sys : System) (a : SubscriberAttachment) (b : Broker) {b' : Broker}
    → release_attachment sys a b ≡ some b'
    → Returned b (a ∷ []) b'
unfolding release_attachment count_held
release_attachment-Returned sys a b {b'} e =
    let (b1, e1, f1) = and_then-some (send sys b _ _ _) _ e in
    let (heap, e2, f2) = and_then-some (b1.available_slots a.topic_id a.publisher_fd) _ f1 in
    let (slots, held) = send-same sys b _ _ _ e1 in
    subst (Returned b (a ∷ [])) (some-injective _ b' f2) (
      λ t q k.
          update2-untick b1.available_slots a.topic_id a.publisher_fd t q a.slot_index k heap e2
          ∙ sum (tick (holds a t q k)) (ap (λ x. count_free (x t q) k) slots),
      held,
    )
  where
    sum : (n : ℕ) {c d : ℕ} → c ≡ d → n + c ≡ (n + 0) + d
    sum n e = omega arith

release_attachments-Returned :
    (sys : System) (atts : List SubscriberAttachment) (b : Broker) {b' : Broker}
    → release_attachments sys atts b ≡ some b'
    → Returned b atts b'
unfolding release_attachments count_held
release_attachments-Returned sys [] b {b'} e =
    subst (Returned b []) (some-injective b b' e) (λ t q k. omega arith, refl)
release_attachments-Returned sys (a ∷ atts) b {b'} e =
    let (b1, e1, f1) = and_then-some (release_attachment sys a b) _ e in
    let (slots, held) = release_attachment-Returned sys a b e1 in
    let (slots', held') = release_attachments-Returned sys atts b1 f1 in
    (λ t q k. ground (arith, slots t q k, slots' t q k), held' ∙ held)

-- The topics of a subscriber change neither table.
abbrev Same : Broker → Broker → Type 0
Same b b' = (b'.available_slots ≡ b.available_slots) × (b'.attachments ≡ b.attachments)

leave_topics-Same :
    (fd : ℕ) (ts : List ℕ) (b : Broker) {b' : Broker} → leave_topics fd ts b ≡ some b' → Same b b'
unfolding leave_topics leave_topic
leave_topics-Same fd [] b {b'} e = subst (Same b) (some-injective b b' e) (refl, refl)
leave_topics-Same fd (topic ∷ ts) b {b'} e =
    let (b1, e1, f1) = and_then-some (leave_topic fd topic b) _ e in
    let (fds, e2, f2) = and_then-some (find topic b.subscribers_of_topic) _ e1 in
    let (fds', e3, f3) = and_then-some (remove fd fds) _ f2 in
    let (slots, held) = leave_topics-Same fd ts b1 f1 in
    let (slots1, held1) = subst (Same b) (some-injective _ b1 f3) (refl, refl) in
    (slots ∙ slots1, held ∙ held1)

count_all_held-erase :
    (fd : ℕ) (m : List (ℕ × List SubscriberAttachment)) {atts : List SubscriberAttachment}
    (t q k : ℕ)
    → find fd m ≡ some atts
    → count_held atts t q k + count_all_held (erase fd m) t q k ≡ count_all_held m t q k
unfolding find erase count_all_held
count_all_held-erase fd [] t q k e = absurd (ground arith)
count_all_held-erase fd ((j, v) ∷ m) {atts} t q k e = elim (Bool-cases (j == fd)) [
  | inl c ↦ rw c (
      subst
        (λ x.
          count_held x t q k + count_all_held m t q k ≡ count_held v t q k + count_all_held m t q k)
        (some-injective v atts (rw c at e)) refl)
  | inr c ↦ rw c (swap (count_held v t q k) _ _ _ (count_all_held-erase fd m t q k (rw c at e)))
]
  where
    swap : (n x y z : ℕ) → x + y ≡ z → x + (n + y) ≡ n + z
    swap n x y z e = omega arith

-- One slot, before and after the attachments give theirs back.
abbrev Released : Broker → List SubscriberAttachment → Broker → ℕ → ℕ → ℕ → Type 0
Released b atts b' t q k =
    (count_free (b'.available_slots t q) k
      ≡ count_held atts t q k + count_free (b.available_slots t q) k)
    × (count_held atts t q k + count_all_held b'.attachments t q k
        ≡ count_all_held b.attachments t q k)

-- For every topic, publisher and slot: when the broker handles the disconnection of a subscriber and
-- goes on, the slot stands among the free ones as many times more as the subscriber's attachments held
-- it, and among those held as many times less. So each slot that the subscriber held is free for the
-- next one, and no other slot is touched.
pub handle_subscriber_disconnect-slot_count :
    (sys : System) (fd : ℕ) (b : Broker) (atts : List SubscriberAttachment) {b' : Broker}
    (t q k : ℕ)
    → find fd b.attachments ≡ some atts
    → handle_subscriber_disconnect sys fd b ≡ some b'
    → (count_free (b'.available_slots t q) k
        ≡ count_held atts t q k + count_free (b.available_slots t q) k)
      × (count_held atts t q k + count_all_held b'.attachments t q k
          ≡ count_all_held b.attachments t q k)
unfolding handle_subscriber_disconnect
handle_subscriber_disconnect-slot_count sys fd b atts {b'} t q k own e =
    let (atts', e1, f1) = and_then-some (find fd b.attachments) _ e in
    let (topics, e2, f2) = and_then-some (find fd b.topics_of_subscriber) _ f1 in
    let (b1, e3, f3) = and_then-some (release_attachments sys atts' b) _ f2 in
    let (b2, e4, f4) = and_then-some (leave_topics fd topics _) _ f3 in
    let (slots, held) = release_attachments-Returned sys atts' b e3 in
    let (slots', held') = leave_topics-Same fd topics _ e4 in
    let same : atts' ≡ atts = some-injective atts' atts (sym e1 ∙ own) in
    subst (λ l. Released b l b' t q k) same
      (subst (λ x. Released b atts' x t q k) (some-injective _ b' f4)
        (
          ap (λ x. count_free (x t q) k) slots' ∙ slots t q k,
          ap (λ m. count_held atts' t q k + count_all_held m t q k) (held' ∙ ap (erase fd) held)
              ∙ count_all_held-erase fd b.attachments t q k e1,
        ))
