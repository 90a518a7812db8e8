-- ===== src/Shared.antt =====
-- `SharedData` of include/shared_memory_layout.hpp and its initialization in src/publisher.cpp.
-- A fixed array is a function of the index, an atomic its value; `pool` is the field `data`. The
-- mutex of the chunk usage tracker has no state here: it only serializes the tracker's accesses.
use drive_bus.Prelude.{ℕ, zero, suc, ◌+◌, ◌-◌, ◌*◌, ◌%◌, Bool, false, update}
use drive_bus.Layout.{
  MessageDescriptor, word_mod, max_subscribers, invalid_index, invalid_offset, class_count,
  class_size_bytes, chunk_count_by_size_class, total_chunk_count, payload_pool_size_bytes,
}
use drive_bus.Bytes.{Bytes, store_word}

pub record SharedData : Type 0 where
  pub descriptor_read_indices : ℕ → ℕ
  pub descriptor_write_index : ℕ
  pub desc_ring : ℕ → MessageDescriptor
  pub head : ℕ → ℕ
  pub tail : ℕ → ℕ
  pub chunk_reference_counts : ℕ → ℕ
  pub pool : Bytes
  pub is_in_use : ℕ → ℕ → Bool

-- `for (i = 0; i < n; ++i) f[i] = v;`
unfoldable pub fill : ℕ → ℕ → (ℕ → ℕ) → ℕ → ℕ
fill zero v f = f
fill (suc n) v f = update (fill n v f) n v

-- The heads of the classes 0 to `n`: each class begins where the one before it ends.
unfoldable pub initial_heads : ℕ → (ℕ → ℕ) → ℕ → ℕ
initial_heads zero heads = update heads 0 0
initial_heads (suc n) heads =
    let before = initial_heads n heads in
    update before (suc n) ((before n + class_size_bytes n * chunk_count_by_size_class n) % word_mod)

-- The tails of the first `n` classes, by the head of the class after each.
unfoldable pub initial_tails : ℕ → (ℕ → ℕ) → (ℕ → ℕ) → ℕ → ℕ
initial_tails zero heads tails = tails
initial_tails (suc n) heads tails =
    update (initial_tails n heads tails) n
      ((word_mod + heads (suc n) - class_size_bytes n) % word_mod)

-- The lambda `init`: links `n` chunks from `offset` on, each to the next, and ends the list.
unfoldable pub link_chunks : ℕ → ℕ → ℕ → Bytes → Bytes
link_chunks zero size offset m = store_word m offset invalid_offset
link_chunks (suc n) size offset m =
    let next_offset = (offset + size) % word_mod in
    link_chunks n size next_offset (store_word m offset next_offset)

-- The free lists of the first `n` classes.
unfoldable pub initial_links : ℕ → (ℕ → ℕ) → Bytes → Bytes
initial_links zero heads m = m
initial_links (suc n) heads m =
    link_chunks (chunk_count_by_size_class n - 1) (class_size_bytes n) (heads n)
      (initial_links n heads m)

unfoldable pub initialize_shared_data : SharedData → SharedData
unfolding fill initial_heads initial_tails initial_links
initialize_shared_data s =
    let heads = initial_heads (class_count - 1) s.head in
    record s {
      descriptor_read_indices = fill max_subscribers invalid_index s.descriptor_read_indices;
      descriptor_write_index = 0;
      head = heads;
      tail =
          update (initial_tails (class_count - 1) heads s.tail) (class_count - 1)
            (payload_pool_size_bytes - class_size_bytes (class_count - 1));
      chunk_reference_counts = fill total_chunk_count 0 s.chunk_reference_counts;
      pool = initial_links class_count heads s.pool;
    }

-- The tracker's `memset`: no chunk is in use.
unfoldable pub initialize_chunk_usage_tracker : SharedData → SharedData
initialize_chunk_usage_tracker s = record s { is_in_use = λ c i. false }
