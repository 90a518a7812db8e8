-- ===== src/FreeList.antt =====
-- The free list of a size class: a list of chunks linked through their first four bytes, from
-- `head` to `tail`. The publisher takes chunks from the head (`Publisher::try_publish_one` of
-- src/publisher.cpp); the publisher and the subscribers append freed chunks at the tail
-- (`release_chunk_references_in_descriptor_range` of src/publisher.cpp and `read_data` of
-- src/subscriber.cpp). The last chunk is never taken: `head == tail` means that the list is empty.
pub mod Chain
pub mod Queue
pub mod Init
use drive_bus.Prelude.{ℕ, Bool, update, ◌==◌}
use drive_bus.Bytes.{load_word, store_word}
use drive_bus.Shared.{SharedData}

-- `chunk_usage_tracker.is_in_use[size_class][chunk_index] = used;`
unfoldable pub set_in_use : SharedData → ℕ → ℕ → Bool → SharedData
set_in_use s c i used = record s {
  is_in_use = update s.is_in_use c (update (s.is_in_use c) i used);
}

-- `head_off == tail_off`
abbrev pub no_free_chunk : SharedData → ℕ → Bool
no_free_chunk s c = s.head c == s.tail c

-- The head moves on to the offset that stands in the chunk.
unfoldable pub take_chunk : SharedData → ℕ → SharedData
take_chunk s c = record s { head = update s.head c (load_word s.pool (s.head c)) }

-- The tail chunk is linked to the freed one, which becomes the tail.
unfoldable pub append_chunk : SharedData → ℕ → ℕ → SharedData
append_chunk s c offset = record s {
  pool = store_word s.pool (s.tail c) offset;
  tail = update s.tail c offset;
}
