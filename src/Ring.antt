-- ===== src/Ring.antt =====
-- The descriptor ring: `find_slowest_read_index` of src/publisher.cpp, the backpressure test of
-- `can_publish_next_message` and `try_publish_one`, and the moves of the indices.
pub mod Slowest
pub mod Pending
use drive_bus.Prelude.{
  ℕ, zero, suc, ◌+◌, ◌%◌, Bool, ◌&&◌, ◌||◌, ◌==◌, ltb, leb, if◌then◌else◌, update, min,
}
use drive_bus.Layout.{
  MessageDescriptor, word_mod, invalid_index, max_subscribers, descriptor_slot_count,
}
use drive_bus.Shared.{SharedData}

-- One round of the loop: the least read index beyond the write index, and the least of the others.
abbrev pub scan_one : ℕ → ℕ → ℕ × ℕ → ℕ × ℕ
scan_one wr index (before, after) =
    if index == invalid_index
    then (before, after)
    else if leb index wr
    then (before, min after index)
    else (min before index, after)

-- The loop over the first `n` subscriber slots.
unfoldable pub scan : (ℕ → ℕ) → ℕ → ℕ → ℕ × ℕ
scan reads wr zero = (invalid_index, invalid_index)
scan reads wr (suc n) = scan_one wr (reads n) (scan reads wr n)

abbrev pub slowest_of : ℕ × ℕ → ℕ
slowest_of (before, after) = if before == invalid_index then after else before

unfoldable pub find_slowest_read_index : SharedData → ℕ
find_slowest_read_index s =
    slowest_of (scan s.descriptor_read_indices s.descriptor_write_index max_subscribers)

-- No subscriber, or the slowest one has left no room behind the write index.
unfoldable pub is_blocked : ℕ → ℕ → Bool
is_blocked min_read_index wr =
    (min_read_index == invalid_index)
    || (ltb wr min_read_index && leb min_read_index ((wr + 1) % word_mod))
    || leb ((min_read_index + descriptor_slot_count) % word_mod) ((wr + 1) % word_mod)

-- The write index moves on by one, round the ring.
abbrev pub next_index : ℕ → ℕ
next_index i = (i + 1) % descriptor_slot_count
