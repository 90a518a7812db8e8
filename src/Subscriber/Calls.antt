-- ===== src/Subscriber/Calls.antt =====
-- `Subscriber::subscribe`, the synchronous call, and `Subscriber::run`, the event loop of an asynchronous
-- subscriber, of src/subscriber.cpp. The clock, what the waits give and what the broker sends are
-- arguments, one turn for each iteration; an event that a call leaves unprocessed is the next call's.
pub mod Ends
use drive_bus.Prelude.{
  ℕ, ◌-◌, ◌^◌, List, [], ◌∷◌, ◌++◌, Option, none, some, Bool, true, false, not, ◌==◌, if◌then◌else◌,
  find, put, update,
}
use drive_bus.Protocol.{Received}
use drive_bus.Shared.{SharedData}
use drive_bus.Subscriber.{
  RunError, broker_control_message_processing_failed, epoll_wait_failed, unexpected_epoll_timeout,
  shutdown_event_read_failed, SubscribeError, timeout, event_wait_failed, broker_unavailable,
  map_run_error_to_subscribe_error, PublisherAttachment, Reading, ReadResult, read_batch,
  read_error, returned, callback_calls,
}
use drive_bus.Subscriber.Events.{
  Surroundings, EventResult, failed, reading, handle_data_available_event,
}
use drive_bus.Subscriber.Control.{Subscriber, Answer, process_broker_control_messages}

abbrev pub broker_event_id : ℕ
broker_event_id = 0

abbrev pub shutdown_event_id : ℕ
shutdown_event_id = 2 ^ 64 - 1

-- The tables, the mapping behind the event descriptor of each attachment, and what the callback of an
-- asynchronous subscriber has been given.
pub record Reader : Type 0 where
  pub tables : Subscriber
  pub mapping : ℕ → SharedData
  pub delivered : List (List ℕ)

-- What an event handler ends with: an error, or the messages of an event. `stuck`: the fuel of
-- `consume_contiguous_messages` ran out.
pub data Handled : Type 0 where
  messages : Reader → List (List ℕ) → Handled
  broken : Reader → RunError → Handled
  stuck : Handled

unfoldable pub handled : Reader → ReadResult → Handled
handled r (read_batch ms) = messages r ms
handled r (read_error e) = broken r e

-- The attachment and its mapping as a reading has left them.
unfoldable pub after_reading : Bool → Reader → ℕ → Option EventResult → Handled
after_reading synchronous r fd none = stuck
after_reading synchronous r fd (some (failed e)) = broken r e
after_reading synchronous r fd (some (reading q)) =
    let r' : Reader = record {
      tables = record r.tables {
        attachment_by_event_fd = put fd q.attachment r.tables.attachment_by_event_fd;
      };
      mapping = update r.mapping fd q.shared;
      delivered = r.delivered ++ callback_calls synchronous q;
    } in
    handled r' (returned synchronous q)

-- An event of an attachment, if the tables have it. The flag says whether the subscriber is
-- synchronous.
unfoldable pub handle_attachment_event : Bool → Surroundings → ℕ → Reader → Option ℕ → Handled
handle_attachment_event synchronous env fuel r none = messages r []
handle_attachment_event synchronous env fuel r (some fd) =
    after_reading synchronous r fd (
      handle_data_available_event env fuel (find fd r.tables.attachment_by_event_fd) (r.mapping fd))

-- What `epoll_wait` gives.
pub data Wait : Type 0 where
  arrived : List ℕ → Wait
  timed_out interrupted wait_failed : Wait

-- One iteration of the loop of `subscribe`: whether the deadline has passed at its begin and before the
-- wait, the wait, the broker's records with the system's answers to them, and the surroundings of the
-- reading with its fuel.
pub record Turn : Type 0 where
  pub late : Bool
  pub late_before_wait : Bool
  pub wait : Wait
  pub answers : ℕ → ℕ → Answer
  pub records : List Received
  pub surroundings : Surroundings
  pub fuel : ℕ
  pub drained : Bool

-- How a call ends, with the events it has left. `waiting`: it runs longer than the turns given.
pub data SubscribeResult : Type 0 where
  batch : Reader → List ℕ → List (List ℕ) → SubscribeResult
  error : Reader → List ℕ → SubscribeError → SubscribeResult
  waiting : Reader → List ℕ → SubscribeResult
  no_fuel : SubscribeResult

-- The rest of the loop.
abbrev pub NextTurn : Type 0
NextTurn = Reader → List ℕ → SubscribeResult

unfoldable pub after_wait : Wait → Reader → NextTurn → SubscribeResult
after_wait (arrived []) r next = error r [] timeout
after_wait (arrived (e ∷ es)) r next = next r (e ∷ es)
after_wait timed_out r next = error r [] timeout
after_wait interrupted r next = next r []
after_wait wait_failed r next = error r [] event_wait_failed

-- After the broker's records.
unfoldable pub after_broker : Reader → List ℕ → Subscriber × Bool → NextTurn → SubscribeResult
after_broker r es (u, true) next = next (record r { tables = u }) es
after_broker r es (u, false) next = error (record r { tables = u }) es broker_unavailable

-- After an event of an attachment: an event without messages is passed over.
unfoldable pub after_event : List ℕ → Handled → NextTurn → SubscribeResult
after_event es stuck next = no_fuel
after_event es (broken r e) next = error r es (map_run_error_to_subscribe_error e)
after_event es (messages r []) next = next r es
after_event es (messages r (m ∷ ms)) next = batch r es (m ∷ ms)

unfoldable pub take_event : Turn → ℕ → List ℕ → Reader → NextTurn → SubscribeResult
take_event t id es r next =
    if id == broker_event_id
    then after_broker r es (process_broker_control_messages t.answers 0 t.records r.tables) next
    else after_event es
        (handle_attachment_event true t.surroundings t.fuel r
          (find id r.tables.event_fd_by_attachment_id))
        next

unfoldable pub turn : Turn → Reader → List ℕ → NextTurn → SubscribeResult
turn t r [] next =
    if t.late
    then error r [] timeout
    else if t.late_before_wait
    then error r [] timeout
    else after_wait t.wait r next
turn t r (id ∷ es) next = if t.late then error r (id ∷ es) timeout else take_event t id es r next

unfoldable pub subscribe : List Turn → Reader → List ℕ → SubscribeResult
subscribe [] r es = waiting r es
subscribe (t ∷ ts) r es = let next = subscribe ts in turn t r es next

-- How `run` ends. `on`: the thread waits for more.
pub data RunResult : Type 0 where
  finished : Reader → Option RunError → RunResult
  on : Reader → RunResult
  no_fuel_left : RunResult

-- An event of `run`, with the same answers as a turn of `subscribe`.
abbrev pub RunEvent : Type 0
RunEvent = ℕ × Turn

abbrev pub NextEvent : Type 0
NextEvent = Reader → RunResult

unfoldable pub run_after_broker : Reader → Subscriber × Bool → NextEvent → RunResult
run_after_broker r (u, true) next = next (record r { tables = u })
run_after_broker r (u, false) next =
    finished (record r { tables = u }) (some broker_control_message_processing_failed)

unfoldable pub run_after_event : Handled → NextEvent → RunResult
run_after_event stuck next = no_fuel_left
run_after_event (broken r e) next = finished r (some e)
run_after_event (messages r ms) next = next r

unfoldable pub run_event : ℕ → Turn → Reader → NextEvent → RunResult
run_event id t r next =
    if id == shutdown_event_id
    then finished r (if t.drained then none else some shutdown_event_read_failed)
    else if id == broker_event_id
    then run_after_broker r (process_broker_control_messages t.answers 0 t.records r.tables) next
    else run_after_event
        (handle_attachment_event false t.surroundings t.fuel r
          (find id r.tables.event_fd_by_attachment_id))
        next

unfoldable pub run_events : List RunEvent → NextEvent → NextEvent
run_events [] next r = next r
run_events ((id, t) ∷ es) next r = let rest = run_events es next in run_event id t r rest

-- What `epoll_wait` without a timeout gives; `none` is its failure.
unfoldable pub run : List (Option (List RunEvent)) → NextEvent
run [] r = on r
run (none ∷ ws) r = finished r (some epoll_wait_failed)
run (some [] ∷ ws) r = finished r (some unexpected_epoll_timeout)
run (some (e ∷ es) ∷ ws) r = let next = run ws in run_events (e ∷ es) next r
