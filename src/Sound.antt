-- ===== src/Sound.antt =====
-- The well-formedness of the shared mapping, which the publisher and the subscribers keep between
-- them: src/publisher.cpp and src/subscriber.cpp.
pub mod Frame
pub mod Publish
pub mod Attempt
pub mod Drop
pub mod Reap
pub mod Read
pub mod Init
use drive_bus.Prelude.{ℕ, ◌+◌, ◌≤◌, ◌<◌, ◌≡◌, ◌≢◌, List, Option, some, Bool, true}
use drive_bus.Layout.{
  MessageDescriptor, class_size_bytes, chunk_count_by_size_class, find_size_class,
}
use drive_bus.Layout.Chunks.{chunk_offset, chunk_number}
use drive_bus.Shared.{SharedData}
use drive_bus.FreeList.Chain.{IsChunk}
use drive_bus.FreeList.Queue.{FreeList}
use drive_bus.Ring.Slowest.{IndicesValid}

-- A descriptor names a chunk of the class of its length.
abbrev pub Described : MessageDescriptor → Type 0
Described d = (c : ℕ) × (c < 5) × (find_size_class d.len ≡ some c) × IsChunk c d.offset

-- Every class has a free list, the descriptors of the ring name chunks, the indices are in the ring,
-- and a chunk that is still referenced is marked in use.
pub record Sound (s : SharedData) : Type 0 where
  pub lists : (c : ℕ) → c < 5 → (free : List ℕ) × FreeList s c free
  pub ring : (i : ℕ) → i < 16 → Described (s.desc_ring i)
  pub indices : IndicesValid s
  pub counted :
      (c i : ℕ)
      → c < 5
      → i < chunk_count_by_size_class c
      → s.chunk_reference_counts (chunk_number c i) ≢ 0
      → s.is_in_use c i ≡ true

-- The chunks in use before have the same bytes after.
abbrev pub Untouched : SharedData → SharedData → Type 0
Untouched s t =
    (c i x : ℕ)
    → c < 5
    → i < chunk_count_by_size_class c
    → s.is_in_use c i ≡ true
    → chunk_offset c i ≤ x
    → x < chunk_offset c i + class_size_bytes c
    → t.pool x ≡ s.pool x
