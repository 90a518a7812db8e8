-- ===== src/Tests/Memory.antt =====
-- Runs on the shared mapping and the messages of the protocol.
use native.Mathlib.Omega.{arith}
use drive_bus.Prelude.{
  ℕ, ◌<◌, ◌≡◌, ◌≢◌, ◌↔◌, inr, List, [], ◌∷◌, ◌++◌, some, true, false, refl, subst, ℕ_discrete,
}
use drive_bus.Layout.{MessageDescriptor, find_size_class, invalid_index}
use drive_bus.Layout.Classes.{Fits, find_size_class-Fits}
use drive_bus.Layout.Chunks.{Placed, chunk_offset-Placed, chunks_disjoint}
use drive_bus.Bytes.{store_bytes, load_bytes}
use drive_bus.Bytes.Laws.{load_bytes-store_bytes}
use drive_bus.FreeList.{set_in_use, take_chunk, append_chunk, no_free_chunk}
use drive_bus.FreeList.Queue.{
  FreeList, no_free_chunk_iff, take_chunk-FreeList, append_chunk-FreeList,
}
use drive_bus.FreeList.Init.{initial_run, offsets_run, initialize-FreeList}
use drive_bus.Ring.{find_slowest_read_index, is_blocked}
use drive_bus.Ring.Slowest.{IndicesValid, InRing, pending_count, is_blocked_iff}
use drive_bus.Protocol.{
  slot_packet, slot_of_packet, subscriber_disconnected, publisher_disconnected_packet,
  attachment_id_of_packet, Metadata, batch_body, batch_of_body, topic_registration_packet,
  topics_of_packet, type_byte, topics_padded,
}
use drive_bus.Bytes.{to_bytes}
use drive_bus.Protocol.RoundTrip.{
  slot_of_packet-slot_packet, attachment_id_of_packet-publisher_disconnected_packet,
  batch_of_body-batch_body, topics_of_packet-topic_registration_packet,
}
use drive_bus.Tests.{zero_data, new_data, ring_data}

find_size_class-Fits_example : Fits 100 (find_size_class 100)
find_size_class-Fits_example = find_size_class-Fits 100

chunk_offset-Placed_example : Placed 3 7
chunk_offset-Placed_example = chunk_offset-Placed 3 7 (omega arith) (omega arith)

-- The third chunk of the second class.
abbrev some_class : ℕ
some_class = 1

abbrev some_chunk : ℕ
some_chunk = 2

chunks_disjoint_example : (some_class ≡ some_class) × (some_chunk ≡ some_chunk)
chunks_disjoint_example =
    chunks_disjoint some_chunk some_chunk some_class some_class (omega arith) (omega arith)
      (omega arith) (omega arith) (omega arith) (omega arith)

load_bytes-store_bytes_example :
    load_bytes (store_bytes (λ x. 0) 24 (7 ∷ 8 ∷ 9 ∷ [])) 24 3 ≡ 7 ∷ 8 ∷ 9 ∷ []
load_bytes-store_bytes_example = load_bytes-store_bytes (λ x. 0) 24 (7 ∷ 8 ∷ 9 ∷ [])

initialize-FreeList_example : FreeList new_data 0 (initial_run 0)
initialize-FreeList_example = initialize-FreeList zero_data 0 (omega arith)

no_free_chunk_iff_example : (no_free_chunk new_data 0 ≡ true) ↔ (initial_run 0 ≡ [])
no_free_chunk_iff_example =
    no_free_chunk_iff new_data 0 (initial_run 0) (initialize-FreeList zero_data 0 (omega arith))

take_chunk-FreeList_example :
    FreeList (take_chunk (set_in_use new_data 0 0 true) 0) 0 (offsets_run 16 16 62)
take_chunk-FreeList_example =
    take_chunk-FreeList new_data 0 0 0 (offsets_run 16 16 62) (omega arith)
      (initialize-FreeList zero_data 0 (omega arith)) refl

append_chunk-FreeList_example :
    FreeList
      (append_chunk (set_in_use (take_chunk (set_in_use new_data 0 0 true) 0) 0 0 false) 0 0)
      0
      (offsets_run 16 16 62 ++ (take_chunk (set_in_use new_data 0 0 true) 0).tail 0 ∷ [])
unfolding take_chunk set_in_use
append_chunk-FreeList_example =
    append_chunk-FreeList (take_chunk (set_in_use new_data 0 0 true) 0) 0 0 (offsets_run 16 16 62)
      (omega arith) (omega arith)
      (take_chunk-FreeList new_data 0 0 0 (offsets_run 16 16 62) (omega arith)
        (initialize-FreeList zero_data 0 (omega arith)) refl)
      refl

ring_data-IndicesValid : IndicesValid ring_data
ring_data-IndicesValid = record {
  write = omega arith;
  reads = λ k h. elim (ℕ_discrete 2 k) [
    | yes e ↦ subst (λ j. InRing (ring_data.descriptor_read_indices j)) e (inr (omega arith))
    | no e ↦ ground arith
  ];
}

is_blocked_iff_example : (is_blocked (find_slowest_read_index ring_data) 5 ≡ false) ↔ (
    ((k : ℕ) × (k < 16) × (ring_data.descriptor_read_indices k ≢ invalid_index))
    × ((k : ℕ)
        → k < 16
        → ring_data.descriptor_read_indices k ≢ invalid_index
        → pending_count (ring_data.descriptor_read_indices k) 5 < 15))
is_blocked_iff_example = is_blocked_iff ring_data ring_data-IndicesValid

abbrev numbered : ℕ → MessageDescriptor
numbered i = record { offset = i; len = 8 }

slot_of_packet-slot_packet_example : slot_of_packet (slot_packet subscriber_disconnected 11) ≡ 11
slot_of_packet-slot_packet_example =
    slot_of_packet-slot_packet subscriber_disconnected 11 (omega arith)

attachment_id_of_packet-publisher_disconnected_packet_example :
    attachment_id_of_packet (publisher_disconnected_packet 300) ≡ 300
attachment_id_of_packet-publisher_disconnected_packet_example =
    attachment_id_of_packet-publisher_disconnected_packet 300 (omega arith)

abbrev two_entries : List Metadata
two_entries =
    record { attachment_id = 1; topic_id = 2; slot_index = 3 }
    ∷ record { attachment_id = 256; topic_id = 1; slot_index = 0 }
    ∷ []

batch_of_body-batch_body_example : batch_of_body 2 (batch_body two_entries ++ []) ≡ two_entries
batch_of_body-batch_body_example = batch_of_body-batch_body two_entries [] (
  record { id = omega arith; topic = omega arith; slot = omega arith },
  (record { id = omega arith; topic = omega arith; slot = omega arith }, tt),
)

two_topics :
    topic_registration_packet (1 ∷ 3 ∷ []) ≡ some (2 ∷ 2 ∷ 0 ∷ 0 ∷ 0 ∷ 1 ∷ 3 ∷ 0 ∷ 0 ∷ 0 ∷ [])
unfolding topic_registration_packet type_byte to_bytes topics_padded
two_topics = refl

topics_of_packet-topic_registration_packet_example :
    topics_of_packet (2 ∷ 2 ∷ 0 ∷ 0 ∷ 0 ∷ 1 ∷ 3 ∷ 0 ∷ 0 ∷ 0 ∷ []) ≡ some (1 ∷ 3 ∷ [])
topics_of_packet-topic_registration_packet_example =
    topics_of_packet-topic_registration_packet (1 ∷ 3 ∷ []) two_topics
