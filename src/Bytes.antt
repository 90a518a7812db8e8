-- ===== src/Bytes.antt =====
-- Memory as bytes: what `memcpy` of a run of bytes or of a little-endian word reads and writes.
-- A mapping is a function from the address to the byte.
pub mod Laws
use drive_bus.Prelude.{ℕ, zero, suc, ◌+◌, ◌*◌, ◌/◌, ◌%◌, List, [], ◌∷◌, update}

abbrev pub Bytes : Type 0
Bytes = ℕ → ℕ

-- `memcpy(memory + address, bytes, ...)`
unfoldable pub store_bytes : Bytes → ℕ → List ℕ → Bytes
store_bytes m a [] = m
store_bytes m a (b ∷ bs) = store_bytes (update m a b) (a + 1) bs

-- `memcpy(bytes, memory + address, count)`
unfoldable pub load_bytes : Bytes → ℕ → ℕ → List ℕ
load_bytes m a zero = []
load_bytes m a (suc n) = m a ∷ load_bytes m (a + 1) n

-- The `n` bytes of an unsigned integer, the lowest first, and the integer of such bytes.
unfoldable pub to_bytes : ℕ → ℕ → List ℕ
to_bytes zero v = []
to_bytes (suc n) v = (v % 256) ∷ to_bytes n (v / 256)

unfoldable pub of_bytes : List ℕ → ℕ
of_bytes [] = 0
of_bytes (b ∷ bs) = b + 256 * of_bytes bs

-- A `uint32_t` in memory.
unfoldable pub store_word : Bytes → ℕ → ℕ → Bytes
store_word m a v = store_bytes m a (to_bytes 4 v)

unfoldable pub load_word : Bytes → ℕ → ℕ
load_word m a = of_bytes (load_bytes m a 4)
