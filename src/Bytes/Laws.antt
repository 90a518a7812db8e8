-- ===== src/Bytes/Laws.antt =====
-- What a read sees after a write, and the round trips of integers through bytes.
use native.Mathlib.Nat.{pow-suc}
use drive_bus.Prelude.{
  ℕ, zero, suc, ◌+◌, ◌/◌, ◌^◌, ◌≤◌, ◌<◌, ◌≡◌, ◌⊎◌, refl, List, [], ◌∷◌, length, update, arith, ap,
}
use drive_bus.Bytes.{Bytes, store_bytes, load_bytes, to_bytes, of_bytes, store_word, load_word}

-- A write leaves the bytes outside its range alone.
pub store_bytes-outside :
    (m : Bytes) (a : ℕ) (bs : List ℕ) (x : ℕ)
    → (x < a) ⊎ (a + length bs ≤ x)
    → store_bytes m a bs x ≡ m x
unfolding store_bytes
store_bytes-outside m a [] x h = refl
store_bytes-outside m a (b ∷ bs) x h =
    ground (arith, store_bytes-outside (update m a b) (a + 1) bs x)

pub load_bytes-outside :
    (m : Bytes) (a : ℕ) (bs : List ℕ) (x n : ℕ)
    → (x + n ≤ a) ⊎ (a + length bs ≤ x)
    → load_bytes (store_bytes m a bs) x n ≡ load_bytes m x n
unfolding load_bytes
load_bytes-outside m a bs x zero h = refl
load_bytes-outside m a bs x (suc n) h =
    ground (arith, store_bytes-outside m a bs x, load_bytes-outside m a bs (x + 1) n)

-- Bytes written at an address are what a read of as many bytes at that address gives.
pub load_bytes-store_bytes :
    (m : Bytes) (a : ℕ) (bs : List ℕ) → load_bytes (store_bytes m a bs) a (length bs) ≡ bs
unfolding load_bytes store_bytes
load_bytes-store_bytes m a [] = refl
load_bytes-store_bytes m a (b ∷ bs) = ground (
  arith,
  store_bytes-outside (update m a b) (a + 1) bs a,
  load_bytes-store_bytes (update m a b) (a + 1) bs,
)

pub length-to_bytes : (n v : ℕ) → length (to_bytes n v) ≡ n
unfolding to_bytes
length-to_bytes zero v = refl
length-to_bytes (suc n) v = ap suc (length-to_bytes n (v / 256))

-- An integer that fits into `n` bytes comes back from them.
pub of_bytes-to_bytes : (n v : ℕ) → v < 256 ^ n → of_bytes (to_bytes n v) ≡ v
unfolding of_bytes to_bytes
of_bytes-to_bytes zero v h = omega arith
of_bytes-to_bytes (suc n) v h =
    omega (arith, pow-suc 256 n, of_bytes-to_bytes n (v / 256) (omega (arith, pow-suc 256 n)))

-- A 32-bit word that was stored is what a load at the same address gives.
pub load_word-store_word : (m : Bytes) (a v : ℕ) → v < 2 ^ 32 → load_word (store_word m a v) a ≡ v
unfolding load_word store_word
load_word-store_word m a v h =
    let e : load_bytes (store_bytes m a (to_bytes 4 v)) a 4 ≡ to_bytes 4 v =
      rw (length-to_bytes 4 v) at (load_bytes-store_bytes m a (to_bytes 4 v)) in
    rw e (of_bytes-to_bytes 4 v h)

pub load_word-outside :
    (m : Bytes) (a v x : ℕ)
    → (x + 4 ≤ a) ⊎ (a + 4 ≤ x)
    → load_word (store_word m a v) x ≡ load_word m x
unfolding load_word store_word
load_word-outside m a v x h =
    rw (load_bytes-outside m a (to_bytes 4 v) x 4 (omega (arith, length-to_bytes 4 v)))
