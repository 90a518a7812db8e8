-- ===== src/Layout.antt =====
-- include/shared_memory_layout.hpp and include/shared_memory_layout_helpers.hpp: the constants of
-- the shared mapping, the size class of a length, and the chunk that an offset belongs to.
-- A size class is its index, 0 to 4; `none` is the -1 of `find_size_class`.
pub mod Classes
pub mod Chunks
use drive_bus.Prelude.{
  ℕ, zero, suc, ◌+◌, ◌-◌, ◌*◌, ◌/◌, ◌%◌, ◌^◌, List, [], ◌∷◌, Option, none, some, get_or, leb,
  if◌then◌else◌,
}

abbrev pub word_mod : ℕ
word_mod = 2 ^ 32

abbrev pub descriptor_slot_count : ℕ
descriptor_slot_count = 16

abbrev pub max_subscribers : ℕ
max_subscribers = 16

-- The largest `uint32_t`, which marks a slot that no subscriber uses.
abbrev pub invalid_index : ℕ
invalid_index = 2 ^ 32 - 1

abbrev pub invalid_offset : ℕ
invalid_offset = 2 ^ 32 - 1

abbrev pub magic : ℕ
magic = 21354532

abbrev pub class_count : ℕ
class_count = 5

abbrev pub class_size_bytes : ℕ → ℕ
class_size_bytes c = get_or (16 ∷ 128 ∷ 256 ∷ 512 ∷ 1024 ∷ []) c 0

abbrev pub chunk_count_by_size_class : ℕ → ℕ
chunk_count_by_size_class c = get_or (64 ∷ 32 ∷ 16 ∷ 8 ∷ 8 ∷ []) c 0

abbrev pub total_chunk_count : ℕ
total_chunk_count =
    chunk_count_by_size_class 0
    + chunk_count_by_size_class 1
    + chunk_count_by_size_class 2
    + chunk_count_by_size_class 3
    + chunk_count_by_size_class 4

abbrev pub chunk_index_base_by_size_class : ℕ → ℕ
chunk_index_base_by_size_class c = get_or (0 ∷ 64 ∷ 96 ∷ 112 ∷ 120 ∷ []) c 0

abbrev pub payload_pool_size_bytes : ℕ
payload_pool_size_bytes = 1024 * 21

abbrev pub first_offset : ℕ → ℕ
first_offset c =
    get_or
      (0
        ∷ (16 * 64)
        ∷ (16 * 64 + 128 * 32)
        ∷ (16 * 64 + 128 * 32 + 256 * 16)
        ∷ (16 * 64 + 128 * 32 + 256 * 16 + 512 * 8)
        ∷ [])
      c 0

abbrev pub last_offset : ℕ → ℕ
last_offset c =
    get_or
      ((first_offset 1 - class_size_bytes 0)
        ∷ (first_offset 2 - class_size_bytes 1)
        ∷ (first_offset 3 - class_size_bytes 2)
        ∷ (first_offset 4 - class_size_bytes 3)
        ∷ (payload_pool_size_bytes - class_size_bytes 4)
        ∷ [])
      c 0

pub record MessageDescriptor : Type 0 where
  pub offset : ℕ
  pub len : ℕ

-- The loop of `find_size_class` from class `i`, with the rounds that are left.
find_size_class_from : ℕ → ℕ → ℕ → Option ℕ
find_size_class_from zero i size = none
find_size_class_from (suc rounds) i size =
    if leb size (class_size_bytes i) then some i else find_size_class_from rounds (i + 1) size

unfoldable pub find_size_class : ℕ → Option ℕ
unfolding find_size_class_from
find_size_class size = find_size_class_from class_count 0 size

-- `(offset - kFirstOffset[size_class]) / kClassSizeBytes[size_class]`, in `uint32_t`.
abbrev pub local_chunk_index : ℕ → ℕ → ℕ
local_chunk_index c offset = (word_mod + offset - first_offset c) % word_mod / class_size_bytes c

abbrev pub chunk_index_of : ℕ → ℕ → ℕ
chunk_index_of c offset = chunk_index_base_by_size_class c + local_chunk_index c offset
