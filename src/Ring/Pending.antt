-- ===== src/Ring/Pending.antt =====
-- The descriptors that a subscriber has still to read, as a list.

use mathlib.Core.Path.{ap₂}
use drive_bus.Prelude.{
  ℕ, zero, suc, ◌+◌, ◌%◌, ◌<◌, ◌≡◌, ◌≢◌, List, [], ◌∷◌, ◌++◌, ap, refl, update, arith, length,
}
use drive_bus.Layout.{MessageDescriptor}
use drive_bus.Ring.{next_index}
use drive_bus.Ring.Slowest.{pending_count}

abbrev pub Descriptors : Type 0
Descriptors = ℕ → MessageDescriptor

-- `n` descriptors from index `i` on, round the ring.
abbrev pub window : Descriptors → ℕ → ℕ → List MessageDescriptor
window ring i zero = []
window ring i (suc n) = ring i ∷ window ring (next_index i) n

-- What lies between a read index and the write index.
abbrev pub pending : Descriptors → ℕ → ℕ → List MessageDescriptor
pending ring rd wr = window ring rd (pending_count rd wr)

pub length-window : (ring : Descriptors) (i n : ℕ) → length (window ring i n) ≡ n
length-window ring i zero = refl
length-window ring i (suc n) = ap suc (length-window ring (next_index i) n)

-- Fewer than 16 steps on do not come back to a slot.
window-update :
    (ring : Descriptors) (d : MessageDescriptor) (w n i : ℕ)
    → i < 16
    → n < 16
    → w ≡ (i + n) % 16
    → window (update ring w d) i n ≡ window ring i n
window-update ring d w zero i hi hn e = refl
window-update ring d w (suc n) i hi hn e =
    ground
      (arith, window-update ring d w n (next_index i) (omega arith) (omega arith) (omega arith))

-- Writing the slot behind a window extends the window by what is written.
window-snoc :
    (ring : Descriptors) (d : MessageDescriptor) (w n i : ℕ)
    → i < 16
    → n < 16
    → w ≡ (i + n) % 16
    → window (update ring w d) i (suc n) ≡ window ring i n ++ d ∷ []
window-snoc ring d w zero i hi hn e = ground arith
window-snoc ring d w (suc n) i hi hn e =
    ap₂ ◌∷◌ (ground arith)
      (window-snoc ring d w n (next_index i) (omega arith) (omega arith) (omega arith))

-- When a subscriber has fewer than 15 descriptors to read, a descriptor written at the write index goes
-- to the end of them, and changes none.
pub pending-write :
    (ring : Descriptors) (d : MessageDescriptor) (rd wr : ℕ)
    → rd < 16
    → wr < 16
    → pending_count rd wr < 15
    → pending (update ring wr d) rd (next_index wr) ≡ pending ring rd wr ++ d ∷ []
pending-write ring d rd wr hr hw room =
    let e : pending_count rd (next_index wr) ≡ suc (pending_count rd wr) = omega arith in
    rw e (window-snoc ring d wr (pending_count rd wr) rd hr (omega arith) (omega arith))

-- A subscriber that joins at the write index has nothing to read.
pub pending-joined : (ring : Descriptors) (wr : ℕ) → wr < 16 → pending ring wr wr ≡ []
pending-joined ring wr hw = let e : pending_count wr wr ≡ 0 = omega arith in rw e

-- A subscriber whose read index is not the write index has the descriptor at its read index to read
-- first, and after it those that it has to read from the next index on.
pub pending-advance :
    (ring : Descriptors) (rd wr : ℕ)
    → rd < 16
    → wr < 16
    → rd ≢ wr
    → pending ring rd wr ≡ ring rd ∷ pending ring (next_index rd) wr
pending-advance ring rd wr hr hw ne =
    let e : pending_count rd wr ≡ suc (pending_count (next_index rd) wr) = omega arith in rw e
