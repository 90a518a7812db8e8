-- ===== src/Outbox/Events.antt =====
-- `handle_space_available_event` and `handle_broker_control_event` of src/publisher.cpp: the events
-- after which a message that waits for room may have it.
use drive_bus.Prelude.{ℕ, List, [], ◌∷◌, Option, none, some, Bool, true, not, if◌then◌else◌, length}
use drive_bus.Protocol.{Received}
use drive_bus.Publisher.{
  Publisher, RunError, space_available_event_read_failed, publish_work_resume_failed,
  publish_work_broker_resume_failed,
}
use drive_bus.Publisher.Control.{process_broker_control_messages}
use drive_bus.Publisher.Readiness.{
  can_publish_next_message, ReadinessResult, readiness, failed, no_message, blocked, ready,
}
use drive_bus.Outbox.{Outbox, PendingMessage, InFlightMessage}

-- The size of the payload that is next: the one in flight, or else the oldest that waits.
unfoldable pub next_payload_size : Option InFlightMessage → List PendingMessage → Option ℕ
next_payload_size (some f) ms = some (length f.message.payload)
next_payload_size none [] = none
next_payload_size none (m ∷ ms) = some (length m.payload)

-- The worker is woken when there is room: `publisher_ready` after it, and the error.
unfoldable pub resume : Bool → RunError → Bool → ReadinessResult → Bool × Option RunError
resume signalled resume_failed was_ready (failed e) = (was_ready, some e)
resume signalled resume_failed was_ready (readiness no_message) = (was_ready, none)
resume signalled resume_failed was_ready (readiness blocked) = (was_ready, none)
resume signalled resume_failed was_ready (readiness ready) =
    (true, (if signalled then none else some resume_failed))

abbrev readiness_of : Publisher → Outbox → ReadinessResult
readiness_of p o =
    can_publish_next_message p.shared_data
      (next_payload_size o.in_flight_message o.pending_messages)

-- `drained` and `signalled` are the answers of the two event descriptors.
unfoldable pub handle_space_available_event :
    Bool → Bool → Bool → Publisher → Outbox → Bool × Option RunError
handle_space_available_event drained signalled was_ready p o =
    if not drained
    then (was_ready, some space_available_event_read_failed)
    else resume signalled publish_work_resume_failed was_ready (readiness_of p o)

-- The publisher after the broker's records, `publisher_ready`, and the error.
unfoldable pub after_control :
    Bool
    → Bool
    → Outbox
    → Option (Publisher × Option RunError)
    → Option (Publisher × Bool × Option RunError)
after_control signalled was_ready o none = none
after_control signalled was_ready o (some (p, some e)) = some (p, was_ready, some e)
after_control signalled was_ready o (some (p, none)) =
    let (ready', e) =
      resume signalled publish_work_broker_resume_failed was_ready (readiness_of p o) in
    some (p, ready', e)

unfoldable pub handle_broker_control_event :
    List Received → Bool → Bool → Publisher → Outbox → Option (Publisher × Bool × Option RunError)
handle_broker_control_event records signalled was_ready p o =
    after_control signalled was_ready o (process_broker_control_messages records p)
