-- ===== src/Mask/Laws.antt =====
-- Laws of the reference masks.
use native.Mathlib.Nat.{pow-suc}
use drive_bus.Prelude.{
  ℕ, zero, suc, ◌+◌, ◌-◌, ◌*◌, ◌/◌, ◌%◌, ◌^◌, ◌≡◌, ◌≢◌, ◌≤◌, ◌<◌, refl, true, false, ◌==◌,
  if◌then◌else◌, arith,
}
use drive_bus.Mask.{slot_bit, test_bit, clear_bit}

-- Clearing bit `k` of a mask clears that bit and no other.
pub test_bit-clear_bit :
    (m k j : ℕ) → test_bit (clear_bit m k) j ≡ (if k == j then false else test_bit m j)
unfolding test_bit clear_bit
test_bit-clear_bit m zero zero = ground arith
test_bit-clear_bit m zero (suc j) =
    let e : (m - m % 2) / 2 ≡ m / 2 = omega arith in rw e (ground arith)
test_bit-clear_bit m (suc k) zero = ground arith
test_bit-clear_bit m (suc k) (suc j) =
    let e : (m % 2 + 2 * clear_bit (m / 2) k) / 2 ≡ clear_bit (m / 2) k = omega arith in
    rw (e, test_bit-clear_bit (m / 2) k j) (ground arith)

-- Adding `2 ^ k` to a mask whose bit `k` is not set sets that bit and no other.
pub test_bit-add :
    (m k j : ℕ)
    → test_bit m k ≡ false
    → test_bit (m + 2 ^ k) j ≡ (if k == j then true else test_bit m j)
unfolding test_bit
test_bit-add m zero zero h = ground arith
test_bit-add m zero (suc j) h = let e : (m + 1) / 2 ≡ m / 2 = ground arith in rw e (ground arith)
test_bit-add m (suc k) zero h =
    let e : (m + 2 ^ suc k) % 2 ≡ m % 2 = omega (arith, pow-suc 2 k) in rw e (ground arith)
test_bit-add m (suc k) (suc j) h =
    let e : (m + 2 ^ suc k) / 2 ≡ m / 2 + 2 ^ k = omega (arith, pow-suc 2 k) in
    rw (e, test_bit-add (m / 2) k j h) (ground arith)

-- Clearing adds no bits.
pub clear_bit-le : (m k : ℕ) → clear_bit m k ≤ m
unfolding clear_bit
clear_bit-le m zero = omega arith
clear_bit-le m (suc k) = omega (arith, clear_bit-le (m / 2) k)

-- The mask of one slot alone is cleared to nothing.
pub clear_bit-slot_bit : (k : ℕ) → clear_bit (2 ^ k) k ≡ 0
unfolding clear_bit
clear_bit-slot_bit zero = refl
clear_bit-slot_bit (suc k) =
    let e : 2 ^ suc k % 2 ≡ 0 = omega (arith, pow-suc 2 k) in
    let f : 2 ^ suc k / 2 ≡ 2 ^ k = omega (arith, pow-suc 2 k) in
    rw (e, f, clear_bit-slot_bit k) refl

two_pow-le : (k n : ℕ) → k ≤ n → 2 ^ k ≤ 2 ^ n
two_pow-le zero zero h = omega arith
two_pow-le (suc k) zero h = absurd (omega arith)
two_pow-le zero (suc n) h = omega (arith, pow-suc 2 n, two_pow-le zero n (omega arith))
two_pow-le (suc k) (suc n) h = omega (arith, pow-suc 2 n, pow-suc 2 k, two_pow-le k n (omega arith))

-- The bit of a slot is not cut off.
pub slot_bit-small : (slot : ℕ) → slot < 32 → slot_bit slot ≡ 2 ^ slot
slot_bit-small slot h = omega (arith, two_pow-le slot 31 (omega arith))

pub slot_bit-some : (slot : ℕ) → slot < 32 → slot_bit slot ≢ 0
slot_bit-some slot h e =
    absurd (omega (arith, slot_bit-small slot h, two_pow-le 0 slot (omega arith)))

-- A mask with a bit is not empty.
pub test_bit-zero : (slot : ℕ) → test_bit 0 slot ≡ false
unfolding test_bit
test_bit-zero zero = refl
test_bit-zero (suc slot) = test_bit-zero slot
