-- ===== src/Broker/Slots/Close.antt =====
-- The slots when a publisher leaves, in src/broker.cpp.
use mathlib.Core.Option.{some-injective}
use drive_bus.Prelude.{
  ℕ, ◌+◌, ◌≡◌, ◌≢◌, List, [], ◌∷◌, Option, none, some, Bool-cases, inl, inr, ◌&&◌, ◌==◌, tick, find,
  refl, sym, subst, ap, ◌∙◌, arith,
}
use drive_bus.Broker.{Broker, SubscriberAttachment, System, send, update2}
use drive_bus.Broker.Leave.{
  take_attachment, detach_subscriber, detach_subscribers, detach_all, topic_of_publisher,
  forget_publisher, handle_publisher_disconnect,
}
use drive_bus.Broker.Slots.{
  count_free, holds, count_held, count_all_held, slot_count, and_then-some, send-same,
}
use drive_bus.Broker.Slots.Open.{count_all_held-put}

-- An attachment to another publisher is not the one that is taken out.
take_attachment-others :
    (fd : ℕ) (atts : List SubscriberAttachment)
    {r : SubscriberAttachment × List SubscriberAttachment} (t q k : ℕ)
    → q ≢ fd
    → take_attachment fd atts ≡ some r
    → count_held r.1 t q k ≡ count_held atts t q k
unfolding take_attachment count_held
take_attachment-others fd [] t q k other e = absurd (ground arith)
take_attachment-others fd (a ∷ atts) {r} t q k other e = elim (Bool-cases (a.publisher_fd == fd)) [
  | inl c ↦
      subst (λ x. count_held x.1 t q k ≡ tick (holds a t q k) + count_held atts t q k)
        (some-injective (a, atts) r (rw c at e)) (ground arith)
  | inr c ↦
      let (r1, e1, f1) = and_then-some (take_attachment fd atts) _ (rw c at e) in
      subst (λ x. count_held x.1 t q k ≡ tick (holds a t q k) + count_held atts t q k)
        (some-injective _ r f1)
        (ap (λ n. tick (holds a t q k) + n) (take_attachment-others fd atts t q k other e1))
]

detach_subscriber-others :
    (sys : System) (fd x : ℕ) (b : Broker) {b' : Broker} (t q k : ℕ)
    → q ≢ fd
    → detach_subscriber sys fd x b ≡ some b'
    → slot_count b' t q k ≡ slot_count b t q k
unfolding detach_subscriber
detach_subscriber-others sys fd x b {b'} t q k other e =
    let (atts, e1, f1) = and_then-some (find x b.attachments) _ e in
    let (r, e2, f2) = and_then-some (take_attachment fd atts) _ f1 in
    let (b1, e3, f3) = and_then-some (send sys b x _ []) _ f2 in
    let (slots, held) = send-same sys b x _ [] e3 in
    subst (λ y. slot_count y t q k ≡ slot_count b t q k) (some-injective _ b' f3)
      (settled _ _ _ _ _ _ _ (ap (λ f. count_free (f t q) k) slots)
        (count_all_held-put x b1.attachments r.1 t q k
          (subst (λ m. find x m ≡ some atts) (sym held) e1))
        (take_attachment-others fd atts t q k other e2) (ap (λ m. count_all_held m t q k) held))
  where
    settled :
        (free1 free put' mine left all1 all : ℕ)
        → free1 ≡ free
        → put' + mine ≡ all1 + left
        → left ≡ mine
        → all1 ≡ all
        → free1 + put' ≡ free + all
    settled free1 free put' mine left all1 all a b c d = omega arith

detach_subscribers-others :
    (sys : System) (fd : ℕ) (xs : List ℕ) (b : Broker) {b' : Broker} (t q k : ℕ)
    → q ≢ fd
    → detach_subscribers sys fd xs b ≡ some b'
    → slot_count b' t q k ≡ slot_count b t q k
unfolding detach_subscribers
detach_subscribers-others sys fd [] b {b'} t q k other e =
    subst (λ y. slot_count y t q k ≡ slot_count b t q k) (some-injective b b' e) refl
detach_subscribers-others sys fd (x ∷ xs) b t q k other e =
    let (b1, e1, f1) = and_then-some (detach_subscriber sys fd x b) _ e in
    detach_subscribers-others sys fd xs b1 t q k other f1
    ∙ detach_subscriber-others sys fd x b t q k other e1

detach_all-others :
    (sys : System) (fd : ℕ) (b : Broker) (xs : Option (List ℕ)) {b' : Broker} (t q k : ℕ)
    → q ≢ fd
    → detach_all sys fd b xs ≡ some b'
    → slot_count b' t q k ≡ slot_count b t q k
unfolding detach_all
detach_all-others sys fd b none {b'} t q k other e =
    subst (λ y. slot_count y t q k ≡ slot_count b t q k) (some-injective b b' e) refl
detach_all-others sys fd b (some xs) t q k other e =
    detach_subscribers-others sys fd xs b t q k other e

-- The heap of the publisher that leaves is not that of another.
closed-others :
    (f : ℕ → ℕ → Option (List ℕ)) (topic fd t q : ℕ) → q ≢ fd → update2 f topic fd none t q ≡ f t q
closed-others f topic fd t q other = elim (Bool-cases ((topic == t) && (fd == q))) [
  | inl c ↦ absurd (ground arith)
  | inr c ↦ rw c refl
]

-- When the broker handles the disconnection of a publisher and goes on, the number of times that a slot
-- of any other publisher stands in its tables, free or held by an attachment, is what it was before.
pub handle_publisher_disconnect-slot_count :
    (sys : System) (fd : ℕ) (b : Broker) {b' : Broker} (t q k : ℕ)
    → q ≢ fd
    → handle_publisher_disconnect sys fd b ≡ some b'
    → slot_count b' t q k ≡ slot_count b t q k
unfolding handle_publisher_disconnect forget_publisher
handle_publisher_disconnect-slot_count sys fd b {b'} t q k other e =
    let (shm_fd, e1, f1) = and_then-some (find fd b.shm_fds) _ e in
    let (topic, e2, f2) = and_then-some (topic_of_publisher fd b.publishers_of_topic) _ f1 in
    let (heap, e3, f3) = and_then-some (b.available_slots topic.0 fd) _ f2 in
    let (b1, e4, f4) =
      and_then-some (detach_all sys fd b (find topic.0 b.subscribers_of_topic)) _ f3 in
    let (space_fd, e5, f5) = and_then-some (find fd b1.space_event_fds) _ f4 in
    subst (λ y. slot_count y t q k ≡ slot_count b t q k) (some-injective _ b' f5)
      (ap (λ o. count_free o k + count_all_held b1.attachments t q k)
          (closed-others b1.available_slots topic.0 fd t q other)
        ∙ detach_all-others sys fd b (find topic.0 b.subscribers_of_topic) t q k other e4)
