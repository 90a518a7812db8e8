-- ===== src/Publisher/Publish.antt =====
-- `can_publish_next_message` and `try_publish_one` of src/publisher.cpp.
use drive_bus.Prelude.{
  ℕ, ◌-◌, ◌+◌, ◌%◌, List, [], ◌∷◌, Option, none, some, Bool, true, false, ltb, ◌||◌, if◌then◌else◌,
  update, length,
}
use drive_bus.Layout.{
  word_mod, magic, find_size_class, first_offset, last_offset, local_chunk_index, chunk_index_of,
}
use drive_bus.Mask.{slot_bit}
use drive_bus.Bytes.{Bytes, store_word, store_bytes}
use drive_bus.Shared.{SharedData}
use drive_bus.FreeList.{set_in_use, no_free_chunk, take_chunk}
use drive_bus.Ring.{find_slowest_read_index, is_blocked, next_index}
use drive_bus.Publisher.{
  Publisher, PublishAttempt, succeeded, blocked, RunError, message_size_class_invalid,
  publish_attempt_failed, find_slot,
}

abbrev pub message_header_size_bytes : ℕ
message_header_size_bytes = 8

pub data PublishOutcome : Type 0 where
  attempt : PublishAttempt → PublishOutcome
  failed : RunError → PublishOutcome

-- The loop that adds up the bits of the tracked slots; `none` when a descriptor has no slot.
unfoldable pub reference_mask : List ℕ → List (ℕ × ℕ) → ℕ → Option ℕ
reference_mask [] slots mask = some mask
reference_mask (fd ∷ fds) slots mask = elim (find_slot slots fd) [
  | none ↦ none
  | some slot ↦ reference_mask fds slots ((mask + slot_bit slot) % word_mod)
]

-- The header and the payload of a message in its chunk.
unfoldable pub write_message : Bytes → ℕ → ℕ → List ℕ → Bytes
write_message m offset seq payload =
    store_bytes (store_word (store_word m offset magic) (offset + 4) seq)
      (offset + message_header_size_bytes) payload

-- The signals to the subscribers, which end at the first that fails.
unfoldable pub signal_all : (ℕ → Bool) → List ℕ → Bool
signal_all signal [] = true
signal_all signal (fd ∷ fds) = if signal fd then signal_all signal fds else false

-- The chunk is taken and filled, and its descriptor is written behind the write index.
unfoldable pub fill_chunk : SharedData → ℕ → ℕ → ℕ → List ℕ → SharedData
fill_chunk s size_class message_size seq payload =
    let head_off = s.head size_class in
    let taken =
      take_chunk (set_in_use s size_class (local_chunk_index size_class head_off) true)
        size_class in
    record taken {
      desc_ring =
          update taken.desc_ring s.descriptor_write_index
            (record { offset = head_off; len = message_size });
      pool = write_message taken.pool head_off seq payload;
    }

-- The chunk gets its references, and the descriptor is published.
unfoldable pub publish_descriptor : SharedData → ℕ → ℕ → SharedData
publish_descriptor s chunk mask = record s {
  chunk_reference_counts =
      update s.chunk_reference_counts chunk ((s.chunk_reference_counts chunk + mask) % word_mod);
  descriptor_write_index = next_index s.descriptor_write_index;
}

-- From the reference mask on.
unfoldable pub finish_publish : (ℕ → Bool) → Publisher → ℕ → Option ℕ → Publisher × PublishOutcome
finish_publish signal p chunk none = (p, failed publish_attempt_failed)
finish_publish signal p chunk (some mask) = (
  record p { shared_data = publish_descriptor p.shared_data chunk mask },
  (if signal_all signal p.data_available_event_fds
      then attempt succeeded
      else failed publish_attempt_failed),
)

-- From the test for a free chunk of the class on.
unfoldable pub publish_in_class :
    (ℕ → Bool) → Publisher → List ℕ → ℕ → ℕ → Publisher × PublishOutcome
publish_in_class signal p payload message_size size_class =
    if no_free_chunk s size_class
    then (p, attempt blocked)
    else if ltb head_off (first_offset size_class) || ltb (last_offset size_class) head_off
    then (p, failed publish_attempt_failed)
    else if s.is_in_use size_class (local_chunk_index size_class head_off)
    then (p, failed publish_attempt_failed)
    else finish_publish signal
        (record p {
          seq = (p.seq + 1) % word_mod;
          shared_data = fill_chunk s size_class message_size p.seq payload;
        })
        (chunk_index_of size_class head_off)
        (reference_mask p.data_available_event_fds p.slot_by_event_fd 0)
  where
    open p use {shared_data as s}

    head_off : ℕ
    head_off = s.head size_class

-- From the size class on.
unfoldable pub publish_sized :
    (ℕ → Bool) → Publisher → List ℕ → ℕ → Option ℕ → Publisher × PublishOutcome
publish_sized signal p payload message_size none = (p, failed message_size_class_invalid)
publish_sized signal p payload message_size (some size_class) =
    if is_blocked (find_slowest_read_index p.shared_data) p.shared_data.descriptor_write_index
    then (p, attempt blocked)
    else publish_in_class signal p payload message_size size_class

unfoldable pub try_publish_one : (ℕ → Bool) → Publisher → List ℕ → Publisher × PublishOutcome
try_publish_one signal p payload =
    if ltb (word_mod - 1 - message_header_size_bytes) (length payload)
    then (p, failed message_size_class_invalid)
    else publish_sized signal p payload ((length payload + message_header_size_bytes) % word_mod)
        (find_size_class ((length payload + message_header_size_bytes) % word_mod))
