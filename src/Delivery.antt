-- ===== src/Delivery.antt =====
-- What a subscriber has still to read in the shared mapping, as the messages that its descriptors
-- name: between `Publisher::try_publish_one` of src/publisher.cpp, which appends one, and
-- `Subscriber::read_data` of src/subscriber.cpp, which takes them.
pub mod Frame
pub mod Drop
pub mod Attempt
pub mod Append
pub mod Publish
pub mod Read
pub mod Reading
pub mod Rounds
pub mod Event
pub mod Available
pub mod Drain
use drive_bus.Prelude.{
  ℕ, ◌+◌, ◌-◌, ◌%◌, ◌≤◌, ◌<◌, ◌≡◌, List, [], ◌∷◌, Option, some, Bool, true, false, map,
}
use drive_bus.Layout.{
  MessageDescriptor, word_mod, magic, chunk_count_by_size_class, find_size_class,
}
use drive_bus.Layout.Chunks.{chunk_offset, chunk_number}
use drive_bus.Mask.{test_bit}
use drive_bus.Bytes.{Bytes, load_word, load_bytes}
use drive_bus.Shared.{SharedData}
use drive_bus.FreeList.Chain.{member}
use drive_bus.Ring.Pending.{pending}

-- The payload that a descriptor names.
abbrev pub message_at : Bytes → MessageDescriptor → List ℕ
message_at m d = load_bytes m (d.offset + 8) (d.len - 8)

-- The messages that the subscriber of a slot has still to read, the oldest first.
abbrev pub queue : SharedData → ℕ → List (List ℕ)
queue s slot =
    map (message_at s.pool)
      (pending s.desc_ring (s.descriptor_read_indices slot) s.descriptor_write_index)

-- A descriptor names a chunk with a message of number `seq`, which the slot still references.
pub record Ready (s : SharedData) (slot seq : ℕ) (d : MessageDescriptor) : Type 0 where
  pub size_class : ℕ
  pub number : ℕ
  pub small : size_class < 5
  pub few : number < chunk_count_by_size_class size_class
  pub class : find_size_class d.len ≡ some size_class
  pub place : d.offset ≡ chunk_offset size_class number
  pub header : 8 ≤ d.len
  pub begins : load_word s.pool d.offset ≡ magic
  pub numbered : load_word s.pool (d.offset + 4) ≡ seq
  pub referenced : test_bit (s.chunk_reference_counts (chunk_number size_class number)) slot ≡ true

-- Descriptors of different chunks, with messages numbered from `seq` on.
abbrev pub AllReady : SharedData → ℕ → ℕ → List MessageDescriptor → Type 0
AllReady s slot seq [] = Unit {0}
AllReady s slot seq (d ∷ ds) =
    Ready s slot seq d
    × (member d.offset (map (λ e. e.offset) ds) ≡ false)
    × AllReady s slot ((seq + 1) % word_mod) ds

-- The subscriber of a slot has messages to read that are numbered from `seq` on.
abbrev pub Waiting : SharedData → ℕ → ℕ → Type 0
Waiting s slot seq =
    AllReady s slot seq
      (pending s.desc_ring (s.descriptor_read_indices slot) s.descriptor_write_index)
