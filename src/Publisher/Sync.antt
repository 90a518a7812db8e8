-- ===== src/Publisher/Sync.antt =====
-- `Publisher::publish(payload, timeout)` of src/publisher.cpp, the synchronous one.
-- The clock, the events and the waits of each round of its loop are arguments; so is what the
-- subscribers do to the shared data before an attempt. An event that a call leaves unprocessed is
-- the first of the next call (`events_`, `event_index_`).
pub mod Deadline
use drive_bus.Prelude.{
  ℕ, ◌+◌, List, [], ◌∷◌, Option, none, some, Bool, true, false, not, ltb, if◌then◌else◌, length,
}
use drive_bus.Shared.{SharedData}
use drive_bus.Protocol.{Received}
use drive_bus.Outbox.{max_payload_size_bytes}
use drive_bus.Publisher.{
  Publisher, PublishAttempt, RunError, PublishError, mode_mismatch, payload_too_large, timeout,
  event_wait_failed, map_sync_run_error_to_publish_error,
}
use drive_bus.Publisher.Control.{process_broker_control_messages}
use drive_bus.Publisher.Publish.{PublishOutcome, attempt, failed, try_publish_one}

pub data Event : Type 0 where
  space_available broker_control other_event : Event

-- `epoll_pwait2`
pub data Wait : Type 0 where
  arrived : List Event → Wait
  timed_out interrupted wait_failed : Wait

-- One round. `late` and the two flags after it are `now() >= deadline`, before each event, before the
-- attempt and after it.
pub record Turn : Type 0 where
  pub late : ℕ → Bool
  pub late_before_attempt : Bool
  pub late_after_attempt : Bool
  pub drained : ℕ → Bool
  pub records : ℕ → List Received
  pub others : SharedData → SharedData
  pub signal : ℕ → Bool
  pub wait : Wait

-- How the call ends. `waiting`: it runs longer than the rounds given. `undefined`: a descriptor that
-- a disconnection releases has no size class.
pub data SyncResult : Type 0 where
  published : Publisher → List Event → SyncResult
  error : Publisher → List Event → PublishError → SyncResult
  waiting undefined : SyncResult

-- After the broker's records.
unfoldable pub after_control :
    List Event → Option (Publisher × Option RunError) → (Publisher → SyncResult) → SyncResult
after_control left none next = undefined
after_control left (some (p, none)) next = next p
after_control left (some (p, some e)) next = error p left (map_sync_run_error_to_publish_error e)

-- One event, the `n`-th of a round.
unfoldable pub on_event :
    Turn → ℕ → Event → List Event → Publisher → (Publisher → SyncResult) → SyncResult
on_event t n space_available left p rest =
    if t.drained n then rest p else error p left event_wait_failed
on_event t n broker_control left p rest =
    after_control left (process_broker_control_messages (t.records n) p) rest
on_event t n other_event left p rest = rest p

-- The events of a round, from the `n`-th on.
unfoldable pub process_events :
    Turn → ℕ → (Publisher → SyncResult) → List Event → Publisher → SyncResult
process_events t n next [] p = next p
process_events t n next (e ∷ es) p =
    let rest = process_events t (n + 1) next es in
    if t.late n then error p (e ∷ es) timeout else on_event t n e (e ∷ es) p rest

-- The wait for room; `next` gets the events.
unfoldable pub after_wait : Wait → Publisher → (List Event → SyncResult) → SyncResult
after_wait (arrived es) p next = next es
after_wait interrupted p next = next []
after_wait timed_out p next = error p [] timeout
after_wait wait_failed p next = error p [] event_wait_failed

unfoldable pub after_attempt :
    Turn → Publisher × PublishOutcome → (Publisher → List Event → SyncResult) → SyncResult
after_attempt t (p, failed e) next = error p [] (map_sync_run_error_to_publish_error e)
after_attempt t (p, attempt PublishAttempt.succeeded) next = published p []
after_attempt t (p, attempt PublishAttempt.blocked) next =
    if t.late_after_attempt then error p [] timeout else after_wait t.wait p (next p)

-- The rest of a round after its events.
unfoldable pub attempt_round :
    Turn → List ℕ → (Publisher → List Event → SyncResult) → Publisher → SyncResult
attempt_round t payload next p =
    if t.late_before_attempt
    then error p [] timeout
    else after_attempt t
        (try_publish_one t.signal (record p { shared_data = t.others p.shared_data }) payload) next

unfoldable pub publish_loop : List Turn → List ℕ → Publisher → List Event → SyncResult
publish_loop [] payload p es = waiting
publish_loop (t ∷ ts) payload p es =
    let next = publish_loop ts payload in process_events t 0 (attempt_round t payload next) es p

unfoldable pub publish_sync : Bool → List Turn → List ℕ → Publisher → List Event → SyncResult
publish_sync synchronous ts payload p es =
    if not synchronous
    then error p es mode_mismatch
    else if ltb max_payload_size_bytes (length payload)
    then error p es payload_too_large
    else publish_loop ts payload p es
