-- ===== src/Subscriber.antt =====
-- `class Subscriber` of include/subscriber.hpp: the attachment to one publisher, and the reading of
-- its messages in src/subscriber.cpp. The mapping `shared_data` of the attachment is the argument `s`
-- of each function and part of its result. A message is taken when it is appended to the local batch
-- of a synchronous subscriber, or handed to the callback of an asynchronous one.
pub mod Control
pub mod Events
pub mod Progress
pub mod Rounds
pub mod Calls
use drive_bus.Prelude.{
  ℕ, zero, suc, ◌+◌, ◌-◌, ◌%◌, List, [], ◌∷◌, ◌++◌, Option, none, some, Bool, not, leb, ltb, ◌||◌,
  ◌==◌, if◌then◌else◌, update,
}
use drive_bus.Layout.{
  MessageDescriptor, word_mod, invalid_index, magic, descriptor_slot_count, find_size_class,
  first_offset, last_offset,
}
use drive_bus.Bytes.{load_word, load_bytes}
use drive_bus.Shared.{SharedData}
use drive_bus.References.{Dropped, held, freed, double_free, drop_reference}

pub data RunError : Type 0 where
  epoll_wait_failed unexpected_epoll_timeout data_available_event_attachment_missing : RunError
  data_available_event_read_failed wrapped_descriptor_read_failed : RunError
  contiguous_message_consumption_failed broker_control_message_processing_failed : RunError
  publisher_disconnected_payload_size_mismatch publisher_disconnected_attachment_missing : RunError
  publisher_disconnected_event_fd_missing shutdown_event_read_failed worker_exception : RunError

pub data SubscribeError : Type 0 where
  timeout event_wait_failed broker_unavailable data_path_failed : SubscribeError

-- `map_run_error_to_subscribe_error`; `RunError::None`, on which the function ends the program, is
-- not among the errors here.
unfoldable pub map_run_error_to_subscribe_error : RunError → SubscribeError
map_run_error_to_subscribe_error epoll_wait_failed = event_wait_failed
map_run_error_to_subscribe_error unexpected_epoll_timeout = timeout
map_run_error_to_subscribe_error broker_control_message_processing_failed = broker_unavailable
map_run_error_to_subscribe_error publisher_disconnected_payload_size_mismatch = broker_unavailable
map_run_error_to_subscribe_error publisher_disconnected_attachment_missing = broker_unavailable
map_run_error_to_subscribe_error publisher_disconnected_event_fd_missing = broker_unavailable
map_run_error_to_subscribe_error _ = data_path_failed

-- `expected_seq` is the bit pattern of an `int`; -1 stands for "none yet".
pub record PublisherAttachment : Type 0 where
  pub topic_id : ℕ
  pub shm_fd : ℕ
  pub space_available_event_fd : ℕ
  pub data_available_event_fd : ℕ
  pub slot_index : ℕ
  pub subscriber_read_index : ℕ
  pub expected_seq : ℕ

abbrev pub no_seq : ℕ
no_seq = word_mod - 1

-- What reading leaves: the attachment, the mapping, the messages taken, and the error that ended it.
-- The messages taken are in the local batch, which an error destroys, or were given to the callback,
-- by the flag SYNCHRONOUS: `returned` and `callback_calls` say what the subscriber gets.
pub record Reading : Type 0 where
  pub attachment : PublisherAttachment
  pub shared : SharedData
  pub taken : List (List ℕ)
  pub error : Option RunError

-- The variant that the call returns, for a synchronous subscriber and for one with a callback: an error
-- is returned without the local batch, and the batch of an asynchronous subscriber stays empty.
pub data ReadResult : Type 0 where
  read_batch : List (List ℕ) → ReadResult
  read_error : RunError → ReadResult

unfoldable pub returned : Bool → Reading → ReadResult
returned synchronous r = elim r.error [
  | some e ↦ read_error e
  | none ↦ read_batch (if synchronous then r.taken else [])
]

-- What the callback has been given, whether or not an error ended the reading.
unfoldable pub callback_calls : Bool → Reading → List (List ℕ)
callback_calls synchronous r = if synchronous then [] else r.taken

abbrev pub stop_reading : PublisherAttachment → SharedData → List (List ℕ) → Reading
stop_reading a s out = record {
  attachment = a;
  shared = s;
  taken = out;
  error = some contiguous_message_consumption_failed;
}

-- `if (++index >= kDescriptorSlotCount) index %= kDescriptorSlotCount;`
abbrev pub step_index : ℕ → ℕ
step_index i = if leb descriptor_slot_count (i + 1) then (i + 1) % descriptor_slot_count else i + 1

-- After the message is taken: the next sequence number is expected, the read index moves on, and
-- the mapping has the index and one reference less.
unfoldable pub advance : PublisherAttachment → PublisherAttachment
advance a = record a {
  expected_seq = (a.expected_seq + 1) % word_mod;
  subscriber_read_index = step_index a.subscriber_read_index;
}

unfoldable pub store_read_index : SharedData → ℕ → ℕ → SharedData
store_read_index s slot index = record s {
  descriptor_read_indices = update s.descriptor_read_indices slot index;
}

-- How the loop goes on after the reference is dropped: a freed chunk is signalled to the publisher.
unfoldable pub after_drop :
    Bool
    → PublisherAttachment
    → List ℕ
    → SharedData × Dropped
    → (PublisherAttachment → SharedData → Reading)
    → Reading
after_drop signalled a payload (s, held) next = next a s
after_drop signalled a payload (s, double_free) next = stop_reading a s (payload ∷ [])
after_drop signalled a payload (s, freed) next =
    if signalled then next a s else stop_reading a s (payload ∷ [])

-- One message in front of those that the rest of the loop takes.
unfoldable pub deliver : List ℕ → Reading → Reading
deliver payload r = record r { taken = payload ∷ r.taken }

-- The index that the attachment keeps is stored into the mapping beside the drop: the code stores it
-- between the clearing of the bit and the return of the chunk, which do not read it.
unfoldable pub read_checked :
    Bool
    → PublisherAttachment
    → SharedData
    → ℕ
    → MessageDescriptor
    → (PublisherAttachment → SharedData → Reading)
    → Reading
read_checked signalled a s size_class d next =
    let payload = load_bytes s.pool (d.offset + 8) (d.len - 8) in
    let a' = advance a in
    let (s', dropped) = drop_reference s size_class d.offset a.slot_index in
    after_drop signalled a' payload
      (store_read_index s' a.slot_index a'.subscriber_read_index, dropped)
      (λ b t. deliver payload (next b t))

-- The sequence number that is expected: the first one seen if there is none yet.
abbrev pub expect_seq : PublisherAttachment → ℕ → PublisherAttachment
expect_seq a seq = if a.expected_seq == no_seq then record a { expected_seq = seq } else a

-- The checks of one descriptor, from its size class on.
unfoldable pub read_sized :
    Bool
    → PublisherAttachment
    → SharedData
    → Option ℕ
    → MessageDescriptor
    → (PublisherAttachment → SharedData → Reading)
    → Reading
read_sized signalled a s none d next = stop_reading a s []
read_sized signalled a s (some size_class) d next =
    if ltb d.offset (first_offset size_class) || ltb (last_offset size_class) d.offset
    then stop_reading a s []
    else if ltb d.len 8
    then stop_reading a s []
    else let seq = load_word s.pool (d.offset + 4) in
      let a' = expect_seq a seq in
      if not (load_word s.pool d.offset == magic) || not (seq == a'.expected_seq)
      then stop_reading a' s []
      else read_checked signalled a' s size_class d next

-- `read_data`: the loop over a copy of descriptors. `signal n` is the answer of the event write for
-- the descriptor `n`.
unfoldable pub read_data :
    (ℕ → Bool) → ℕ → List MessageDescriptor → PublisherAttachment → SharedData → Reading
read_data signal n [] a s = record { attachment = a; shared = s; taken = []; error = none }
read_data signal n (d ∷ ds) a s =
    let next = read_data signal (n + 1) ds in
    read_sized (signal n) a s (find_size_class d.len) d next

-- A copy of `n` descriptors from index `i` on.
unfoldable pub slice : (ℕ → MessageDescriptor) → ℕ → ℕ → List MessageDescriptor
slice ring i zero = []
slice ring i (suc n) = ring i ∷ slice ring (i + 1) n
