-- ===== src/Delivery/Rounds.antt =====
-- The run of the ring that a subscriber reads, as the copies of descriptors that `read_data` of
-- src/subscriber.cpp is given.

use drive_bus.Prelude.{
  ℕ, zero, suc, ◌+◌, ◌-◌, ◌%◌, ◌≤◌, ◌<◌, ◌≡◌, List, ◌∷◌, ◌++◌, refl, sym, length, arith, ◌∙◌, ap,
}
use drive_bus.Layout.{MessageDescriptor, word_mod}
use drive_bus.Ring.{next_index}
use drive_bus.Ring.Slowest.{pending_count}
use drive_bus.Ring.Pending.{Descriptors, window, pending}
use drive_bus.Subscriber.{step_index, slice}
use drive_bus.Subscriber.Progress.{steps}
use drive_bus.Delivery.Append.{seq_after}

pub seq_after-add : (n m seq : ℕ) → seq_after (n + m) seq ≡ seq_after m (seq_after n seq)
seq_after-add zero m seq = let e : 0 + m ≡ m = omega arith in rw e refl
seq_after-add (suc n) m seq =
    let e : suc n + m ≡ suc (n + m) = omega arith in rw e (seq_after-add n m ((seq + 1) % word_mod))

pub steps-add : (n m i : ℕ) → steps (n + m) i ≡ steps m (steps n i)
steps-add zero m i = let e : 0 + m ≡ m = omega arith in rw e refl
steps-add (suc n) m i =
    let e : suc n + m ≡ suc (n + m) = omega arith in rw e (steps-add n m (step_index i))

-- The moves of a read index go round the ring.
pub steps-mod : (n i : ℕ) → i < 16 → steps n i ≡ (i + n) % 16
steps-mod zero i h = omega arith
steps-mod (suc n) i h =
    let small : step_index i < 16 = ground arith in
    let e : (step_index i + n) % 16 ≡ (i + suc n) % 16 = ground arith in
    steps-mod n (step_index i) small ∙ e

-- A run of the ring that does not go round it.
slice-window : (ring : Descriptors) (i n : ℕ) → i + n ≤ 16 → slice ring i n ≡ window ring i n
unfolding slice
slice-window ring i zero h = refl
slice-window ring i (suc zero) h = refl
slice-window ring i (suc (suc n)) h =
    let e : next_index i ≡ i + 1 = omega arith in
    rw e (
      ap (λ (l : List MessageDescriptor). ring i ∷ l)
        (slice-window ring (i + 1) (suc n) (omega arith)))

window-add :
    (ring : Descriptors) (i n m : ℕ)
    → i < 16
    → window ring i (n + m) ≡ window ring i n ++ window ring ((i + n) % 16) m
window-add ring i zero m h =
    let e : 0 + m ≡ m = omega arith in let f : (i + 0) % 16 ≡ i = omega arith in rw (e, f) refl
window-add ring i (suc n) m h =
    let e : suc n + m ≡ suc (n + m) = omega arith in
    let f : (next_index i + n) % 16 ≡ (i + suc n) % 16 = omega arith in
    rw (e, ← f)
      (ap (λ (l : List MessageDescriptor). ring i ∷ l)
        (window-add ring (next_index i) n m (omega arith)))

pub length-slice : (ring : Descriptors) (i n : ℕ) → length (slice ring i n) ≡ n
unfolding slice
length-slice ring i zero = refl
length-slice ring i (suc n) = ap suc (length-slice ring (i + 1) n)

-- What is pending does not go round the ring, or is its end and its beginning.
pub pending-plain :
    (ring : Descriptors) (rd wr : ℕ)
    → rd ≤ wr
    → wr < 16
    → pending ring rd wr ≡ slice ring rd (wr - rd)
pending-plain ring rd wr h hw =
    let e : pending_count rd wr ≡ wr - rd = omega arith in
    rw e (sym (slice-window ring rd (wr - rd) (omega arith)))

pub pending-wrapped :
    (ring : Descriptors) (rd wr : ℕ)
    → wr < rd
    → rd < 16
    → pending ring rd wr ≡ slice ring rd (16 - rd) ++ slice ring 0 wr
pending-wrapped ring rd wr h hr =
    let e : pending_count rd wr ≡ (16 - rd) + wr = omega arith in
    let f : (rd + (16 - rd)) % 16 ≡ 0 = omega arith in
    rw
      (
        e,
        window-add ring rd (16 - rd) wr hr,
        f,
        slice-window ring rd (16 - rd) (omega arith),
        slice-window ring 0 wr (omega arith),
      )
      refl
