-- ===== src/References.antt =====
-- A subscriber's reference to a chunk, and what dropping it does. The same statements stand in
-- `release_chunk_references_in_descriptor_range` of src/publisher.cpp, which drops the references of
-- a dead subscriber, and in `read_data` of src/subscriber.cpp, which drops those of messages read.
use drive_bus.Prelude.{ℕ, false, ◌==◌, if◌then◌else◌, update}
use drive_bus.Layout.{local_chunk_index, chunk_index_of}
use drive_bus.Mask.{slot_bit, clear_bit}
use drive_bus.Shared.{SharedData}
use drive_bus.FreeList.{set_in_use, append_chunk}

-- What dropping one reference does: other subscribers still hold the chunk, the chunk was the last
-- holder's and goes back to its free list, or the tracker says that it is free already.
pub data Dropped : Type 0 where
  held freed double_free : Dropped

-- `fetch_and(~bit)` on the mask, and the return of the chunk if the bit was the only one. The code
-- of the publisher and that of the subscriber are the same here.
unfoldable pub drop_reference : SharedData → ℕ → ℕ → ℕ → SharedData × Dropped
drop_reference s size_class offset slot =
    if s.chunk_reference_counts chunk == slot_bit slot
    then if s.is_in_use size_class local
      then (append_chunk (set_in_use cleared size_class local false) size_class offset, freed)
      else (cleared, double_free)
    else (cleared, held)
  where
    chunk : ℕ
    chunk = chunk_index_of size_class offset

    local : ℕ
    local = local_chunk_index size_class offset

    cleared : SharedData
    cleared = record s {
      chunk_reference_counts =
          update s.chunk_reference_counts chunk (clear_bit (s.chunk_reference_counts chunk) slot);
    }
