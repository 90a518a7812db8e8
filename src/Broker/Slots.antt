-- ===== src/Broker/Slots.antt =====
-- How often a slot of a publisher stands in the broker's tables, src/broker.cpp: among the free ones
-- of `available_subscriber_slots_by_topic_id_and_publisher_fd` and among the attachments of
-- `subscriber_attachments_by_subscriber_fd`.
pub mod Join
pub mod Part
pub mod Init
pub mod Open
pub mod Close
use native.Mathlib.Omega.{arith}
use mathlib.Core.Option.{some-injective}
use drive_bus.Prelude.{
  ℕ, ◌+◌, List, [], ◌∷◌, ◌++◌, Option, none, some, Bool, Bool-cases, inl, inr, true, false, ◌==◌,
  ◌&&◌, ◌≡◌, refl, sym, subst, length, leb, ◌↔◌, if◌then◌else◌, tick, count,
}
use drive_bus.Broker.{Broker, SubscriberAttachment, System, send, and_then, emplace, update2}

abbrev pub count_free : Option (List ℕ) → ℕ → ℕ
count_free none k = 0
count_free (some heap) k = count k heap

-- The attachment holds slot `k` of publisher `q` for topic `t`.
abbrev pub holds : SubscriberAttachment → ℕ → ℕ → ℕ → Bool
holds a t q k = ((a.topic_id == t) && (a.publisher_fd == q)) && (a.slot_index == k)

unfoldable pub count_held : List SubscriberAttachment → ℕ → ℕ → ℕ → ℕ
count_held [] t q k = 0
count_held (a ∷ atts) t q k = tick (holds a t q k) + count_held atts t q k

unfoldable pub count_all_held : List (ℕ × List SubscriberAttachment) → ℕ → ℕ → ℕ → ℕ
count_all_held [] t q k = 0
count_all_held ((fd, atts) ∷ m) t q k = count_held atts t q k + count_all_held m t q k

-- The times that the slot stands in the tables, free or held.
abbrev pub slot_count : Broker → ℕ → ℕ → ℕ → ℕ
slot_count b t q k = count_free (b.available_slots t q) k + count_all_held b.attachments t q k

pub and_then-some {ℓ κ} :
    {A : Type ℓ} {B : Type κ} (x : Option A) (f : A → Option B) {r : B}
    → and_then x f ≡ some r
    → (a : A) × (x ≡ some a) × (f a ≡ some r)
unfolding and_then
and_then-some none f e = absurd (ground arith)
and_then-some (some a) f e = (a, refl, e)

given :
    (d : Bool) (b b0 : Broker) {b' : Broker}
    → b0.available_slots ≡ b.available_slots
    → b0.attachments ≡ b.attachments
    → (if d then some b0 else none) ≡ some b'
    → (b'.available_slots ≡ b.available_slots) × (b'.attachments ≡ b.attachments)
given true b b0 {b'} h g e =
    subst (λ x. (x.available_slots ≡ b.available_slots) × (x.attachments ≡ b.attachments))
      (some-injective b0 b' e) (h, g)
given false b b0 h g e = absurd (ground arith)

-- A send changes neither table.
pub send-same :
    (sys : System) (b : Broker) (receiver : ℕ) (bytes fds : List ℕ) {b' : Broker}
    → send sys b receiver bytes fds ≡ some b'
    → (b'.available_slots ≡ b.available_slots) × (b'.attachments ≡ b.attachments)
unfolding send
send-same sys b receiver bytes fds e = given (sys.delivered (length b.sent)) b _ refl refl e

pub count-emplace : (k x : ℕ) (xs : List ℕ) → count k (emplace x xs) ≡ tick (x == k) + count k xs
unfolding count emplace
count-emplace k x [] = refl
count-emplace k x (y ∷ ys) = elim (Bool-cases (leb x y)) [
  | inl e ↦ rw e refl
  | inr e ↦ rw e (ground (arith, count-emplace k x ys))
]

pub count_held-append :
    (atts : List SubscriberAttachment) (a : SubscriberAttachment) (t q k : ℕ)
    → count_held (atts ++ a ∷ []) t q k ≡ count_held atts t q k + tick (holds a t q k)
unfolding count_held
count_held-append [] a t q k = omega arith
count_held-append (x ∷ atts) a t q k = ground (arith, count_held-append atts a t q k)

-- The heap of one publisher is changed by one slot: the slot's count changes, the others' do not.
pub update2-tick :
    (f : ℕ → ℕ → Option (List ℕ)) (t q t' q' slot k : ℕ) (heap heap' : List ℕ)
    → f t q ≡ some heap
    → count k heap' + tick (slot == k) ≡ count k heap
    → count_free (update2 f t q (some heap') t' q') k
        + tick (((t == t') && (q == q')) && (slot == k))
      ≡ count_free (f t' q') k
update2-tick f t q t' q' slot k heap heap' e h = elim (Bool-cases ((t == t') && (q == q'))) [
  | inl c ↦ rw (c, same c) h
  | inr c ↦ rw c (omega arith)
]
  where
    same : ((t == t') && (q == q')) ≡ true → f t' q' ≡ some heap
    same c =
        subst (λ x. f x q' ≡ some heap) (ground arith)
          (subst (λ y. f t y ≡ some heap) (ground arith) e)
