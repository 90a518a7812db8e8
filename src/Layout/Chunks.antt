-- ===== src/Layout/Chunks.antt =====
-- The chunks lie in the payload pool, do not overlap, and have distinct indices.
use drive_bus.Prelude.{ℕ, ◌+◌, ◌*◌, ◌≤◌, ◌<◌, ◌≡◌, arith}
use drive_bus.Layout.{
  class_size_bytes, chunk_count_by_size_class, first_offset, last_offset, chunk_index_of,
  local_chunk_index, chunk_index_base_by_size_class, total_chunk_count, payload_pool_size_bytes,
}
use drive_bus.Layout.Classes.{class_cases}

-- The offset of the chunk number `i` of class `c`.
abbrev pub chunk_offset : ℕ → ℕ → ℕ
chunk_offset c i = first_offset c + class_size_bytes c * i

-- A chunk lies between the first and the last offset of its class and inside the payload pool, and
-- its index, computed back from its offset, is its number above the base of the class.
pub record Placed (c i : ℕ) : Type 0 where
  pub first : first_offset c ≤ chunk_offset c i
  pub last : chunk_offset c i ≤ last_offset c
  pub pool : chunk_offset c i + class_size_bytes c ≤ payload_pool_size_bytes
  pub local : local_chunk_index c (chunk_offset c i) ≡ i
  pub index : chunk_index_of c (chunk_offset c i) ≡ chunk_index_base_by_size_class c + i
  pub below : chunk_index_of c (chunk_offset c i) < total_chunk_count

-- Every chunk of the five classes lies between the first and the last offset of its class and inside
-- the payload pool; `local_chunk_index` of its offset is its number in the class, and `chunk_index_of`
-- is that number above the class's base, below the number of all chunks.
pub chunk_offset-Placed : (c i : ℕ) → c < 5 → i < chunk_count_by_size_class c → Placed c i
chunk_offset-Placed c i hc =
    class_cases (λ c. i < chunk_count_by_size_class c → Placed c i) (λ h. omega arith)
      (λ h. omega arith) (λ h. omega arith) (λ h. omega arith) (λ h. omega arith) c hc

-- What follows if the chunk `i` of class `c` and the chunk `j` of class `d` share a byte.
abbrev pub Meet : ℕ → ℕ → ℕ → ℕ → Type 0
Meet i j c d =
    i < chunk_count_by_size_class c
    → j < chunk_count_by_size_class d
    → chunk_offset c i < chunk_offset d j + class_size_bytes d
    → chunk_offset d j < chunk_offset c i + class_size_bytes c
    → (c ≡ d) × (i ≡ j)

one_chunk : (i j c d : ℕ) → c < 5 → d < 5 → Meet i j c d
one_chunk i j c d hc hd =
    class_cases (λ c. Meet i j c d)
      (class_cases (Meet i j 0) (omega arith) (omega arith) (omega arith) (omega arith)
        (omega arith) d hd)
      (class_cases (Meet i j 1) (omega arith) (omega arith) (omega arith) (omega arith)
        (omega arith) d hd)
      (class_cases (Meet i j 2) (omega arith) (omega arith) (omega arith) (omega arith)
        (omega arith) d hd)
      (class_cases (Meet i j 3) (omega arith) (omega arith) (omega arith) (omega arith)
        (omega arith) d hd)
      (class_cases (Meet i j 4) (omega arith) (omega arith) (omega arith) (omega arith)
        (omega arith) d hd)
      c hc

-- Two chunks whose byte ranges meet are one chunk: of the same class, and the same one in it.
pub chunks_disjoint :
    (i j c d : ℕ)
    → c < 5
    → d < 5
    → i < chunk_count_by_size_class c
    → j < chunk_count_by_size_class d
    → chunk_offset c i < chunk_offset d j + class_size_bytes d
    → chunk_offset d j < chunk_offset c i + class_size_bytes c
    → (c ≡ d) × (i ≡ j)
chunks_disjoint = one_chunk

-- The place of the chunk `i` of class `c` among all chunks.
abbrev pub chunk_number : ℕ → ℕ → ℕ
chunk_number c i = chunk_index_base_by_size_class c + i

-- What follows if the chunk `i` of class `c` and the chunk `j` of class `d` have one number.
abbrev Coincide : ℕ → ℕ → ℕ → ℕ → Type 0
Coincide i j c d =
    i < chunk_count_by_size_class c
    → j < chunk_count_by_size_class d
    → chunk_number c i ≡ chunk_number d j
    → (c ≡ d) × (i ≡ j)

-- The chunks of the five classes have different numbers.
pub chunk_number-injective : (i j c d : ℕ) → c < 5 → d < 5 → Coincide i j c d
chunk_number-injective i j c d hc hd =
    class_cases (λ c. Coincide i j c d)
      (class_cases (Coincide i j 0) (omega arith) (omega arith) (omega arith) (omega arith)
        (omega arith) d hd)
      (class_cases (Coincide i j 1) (omega arith) (omega arith) (omega arith) (omega arith)
        (omega arith) d hd)
      (class_cases (Coincide i j 2) (omega arith) (omega arith) (omega arith) (omega arith)
        (omega arith) d hd)
      (class_cases (Coincide i j 3) (omega arith) (omega arith) (omega arith) (omega arith)
        (omega arith) d hd)
      (class_cases (Coincide i j 4) (omega arith) (omega arith) (omega arith) (omega arith)
        (omega arith) d hd)
      c hc
