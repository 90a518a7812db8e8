-- ===== src/Subscriber/Events.antt =====
-- `consume_contiguous_messages` and `handle_data_available_event` of src/subscriber.cpp.
use drive_bus.Prelude.{
  ℕ, zero, suc, ◌+◌, ◌-◌, [], ◌++◌, Option, none, some, Bool, not, ltb, ◌==◌, if◌then◌else◌,
}
use drive_bus.Layout.{invalid_index, descriptor_slot_count}
use drive_bus.Shared.{SharedData}
use drive_bus.Subscriber.{
  RunError, data_available_event_attachment_missing, data_available_event_read_failed,
  wrapped_descriptor_read_failed, PublisherAttachment, Reading, read_data, slice,
}

-- What surrounds a run: the answers of the event writes, by the round of the loop and the descriptor
-- of the round, and the changes that other processes make to the mapping before each round looks at
-- the write index.
pub record Surroundings : Type 0 where
  pub drained : Bool
  pub signal : ℕ → ℕ → Bool
  pub others : ℕ → SharedData → SharedData

-- An error keeps its reading; else the rest of the work goes on behind it.
unfoldable pub and_then :
    Reading → (PublisherAttachment → SharedData → Option Reading) → Option Reading
and_then r next = elim r.error [
  | some e ↦ some r
  | none ↦ elim (next r.attachment r.shared) [
    | none ↦ none
    | some q ↦ some (record q { taken = r.taken ++ q.taken })
  ]
]

-- The loop from `round` on; `none` means that the fuel ran out. Each round reads the write index
-- anew, after what other processes have done.
unfoldable pub consume_contiguous_messages :
    Surroundings → ℕ → ℕ → PublisherAttachment → SharedData → Option Reading
consume_contiguous_messages env zero round a s = none
consume_contiguous_messages env (suc fuel) round a s =
    let now = env.others round s in
    let rest = consume_contiguous_messages env fuel (round + 1) in
    if ltb a.subscriber_read_index now.descriptor_write_index
    then and_then
        (read_data (env.signal round) 0
          (slice now.desc_ring a.subscriber_read_index
            (now.descriptor_write_index - a.subscriber_read_index))
          a now)
        rest
    else some (record { attachment = a; shared = now; taken = []; error = none })

-- `initialize_subscriber_read_index`
unfoldable pub initialize_subscriber_read_index :
    PublisherAttachment → SharedData → PublisherAttachment
initialize_subscriber_read_index a s =
    if a.subscriber_read_index == invalid_index
    then record a { subscriber_read_index = s.descriptor_read_indices a.slot_index }
    else a

-- An error in the part behind the read index is reported as such.
unfoldable pub as_wrapped : Reading → Reading
as_wrapped r = elim r.error [
  | none ↦ r
  | some e ↦ record r { error = some wrapped_descriptor_read_failed }
]

-- The part of the ring from the read index to its end, if the write index has gone round, and then
-- what is contiguous. Round 0 of the surroundings is the part before the loop.
unfoldable pub read_available : Surroundings → ℕ → PublisherAttachment → SharedData → Option Reading
read_available env fuel a s =
    if ltb s.descriptor_write_index a.subscriber_read_index
    then and_then
        (as_wrapped (
          read_data (env.signal 0) 0
            (slice s.desc_ring a.subscriber_read_index
              (descriptor_slot_count - a.subscriber_read_index))
            a s))
        (consume_contiguous_messages env fuel 1)
    else consume_contiguous_messages env fuel 1 a s

-- `handle_data_available_event`, for the attachment that the table holds at the descriptor of the
-- event; the result has no attachment if there is none.
pub data EventResult : Type 0 where
  failed : RunError → EventResult
  reading : Reading → EventResult

unfoldable pub handle_data_available_event :
    Surroundings → ℕ → Option PublisherAttachment → SharedData → Option EventResult
handle_data_available_event env fuel none s = some (failed data_available_event_attachment_missing)
handle_data_available_event env fuel (some a) s =
    if not env.drained
    then some (failed data_available_event_read_failed)
    else elim (read_available env fuel (initialize_subscriber_read_index a (env.others 0 s))
        (env.others 0 s)) [ none ↦ none | some r ↦ some (reading r) ]
