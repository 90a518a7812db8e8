-- ===== src/Outbox/Run.antt =====
-- The worker of an asynchronous publisher: its event loop `Publisher::run` and the function of the thread
-- that `Publisher::start_run_thread` starts, of src/publisher.cpp. What `epoll_wait` gives is a list of
-- waits; a list that ends stands for a thread that waits on. Before each event other threads may call
-- `publish(payload)`, and other processes may change the shared data.
pub mod Exit
pub mod Thread
use drive_bus.Prelude.{ℕ, List, [], ◌∷◌, Option, none, some, Bool, true, false, if◌then◌else◌}
use drive_bus.Protocol.{Received}
use drive_bus.Shared.{SharedData}
use drive_bus.Publisher.{
  Publisher, RunError, epoll_wait_failed, unexpected_epoll_timeout, shutdown_event_read_failed,
  worker_exception,
}
use drive_bus.Outbox.{
  Outbox, PublishCompletion, worker_stopped, worker_failed, complete_outstanding_messages,
}
use drive_bus.Outbox.Worker.{Call, run_calls, Surroundings, WorkResult, handle_publish_work_event}
use drive_bus.Outbox.Events.{handle_space_available_event, handle_broker_control_event}

-- An event with the answers that its handler gets. `other_event` is a descriptor that is none of the
-- publisher's four.
pub data EventKind : Type 0 where
  publish_work : Surroundings → EventKind
  space_available : (drained signalled : Bool) → EventKind
  broker_control : (records : List Received) (signalled : Bool) → EventKind
  shutdown : (drained : Bool) → EventKind
  other_event : EventKind

-- What happens between the event before and this one.
pub record Event : Type 0 where
  pub calls : List Call
  pub others : SharedData → SharedData
  pub kind : EventKind

pub data Wait : Type 0 where
  arrived : List Event → Wait
  wait_failed timed_out : Wait

-- `waiting`: the thread waits for more. `undefined`: a descriptor that is released has no size class.
pub data RunResult : Type 0 where
  finished : Publisher → Outbox → Option RunError → RunResult
  waiting : Publisher → Outbox → RunResult
  undefined : RunResult

-- The rest of the loop, by `publisher_ready`.
abbrev pub Rest : Type 0
Rest = Publisher → Outbox → Bool → RunResult

-- The loop has ended, and the worker is no longer active.
abbrev pub finish_run : Publisher → Outbox → Option RunError → RunResult
finish_run p o reason = finished p (record o { run_thread_active = false }) reason

-- An error ends the loop.
unfoldable pub unless_failed : Publisher → Outbox → Bool → Option RunError → Rest → RunResult
unless_failed p o ready none next = next p o ready
unless_failed p o ready (some e) next = finish_run p o (some e)

unfoldable pub after_control :
    Outbox → Option (Publisher × Bool × Option RunError) → Rest → RunResult
after_control o none next = undefined
after_control o (some (p, ready, e)) next = unless_failed p o ready e next

-- One event.
unfoldable pub on_event : EventKind → Publisher → Outbox → Bool → Rest → RunResult
on_event (publish_work env) p o ready next =
    let r = handle_publish_work_event env ready p o in
    unless_failed r.publisher r.outbox r.publisher_ready r.error next
on_event (space_available drained signalled) p o ready next =
    let (ready', e) = handle_space_available_event drained signalled ready p o in
    unless_failed p o ready' e next
on_event (broker_control records signalled) p o ready next =
    after_control o (handle_broker_control_event records signalled ready p o) next
on_event (shutdown drained) p o ready next =
    if drained then finish_run p o none else finish_run p o (some shutdown_event_read_failed)
on_event other_event p o ready next = next p o ready

-- The events of one wait.
unfoldable pub on_events : List Event → Rest → Rest
on_events [] next p o ready = next p o ready
on_events (e ∷ es) next p o ready =
    let rest = on_events es next in
    on_event e.kind (record p { shared_data = e.others p.shared_data }) (run_calls e.calls o) ready
      rest

-- The loop over the waits.
unfoldable pub run_loop : List Wait → Rest
run_loop [] p o ready = waiting p o
run_loop (wait_failed ∷ ws) p o ready = finish_run p o (some epoll_wait_failed)
run_loop (timed_out ∷ ws) p o ready = finish_run p o (some unexpected_epoll_timeout)
run_loop (arrived [] ∷ ws) p o ready = finish_run p o (some unexpected_epoll_timeout)
run_loop (arrived (e ∷ es) ∷ ws) p o ready =
    let next = run_loop ws in on_events (e ∷ es) next p o ready

unfoldable pub run : List Wait → Publisher → Outbox → RunResult
run ws p o = run_loop ws p o true

pub data WorkerStopIntent : Type 0 where
  destroy transfer : WorkerStopIntent

-- What the thread does when `run` has returned: `calls` are those that come in between.
unfoldable pub exit_worker : WorkerStopIntent → List Call → Outbox → Option RunError → Outbox
exit_worker intent calls o (some e) =
    complete_outstanding_messages worker_failed (run_calls calls o)
exit_worker transfer calls o none = run_calls calls o
exit_worker destroy calls o none = complete_outstanding_messages worker_stopped (run_calls calls o)

-- How `run` ends in the thread: it returns, or throws an exception, in the state of the outbox at that
-- moment.
pub data RunEnd : Type 0 where
  returned : RunResult → RunEnd
  thrown : Outbox → RunEnd

-- The function of the thread, up to the value that its promise gets. `running` and `no_result`: `run`
-- waits on, or has no defined behaviour.
pub data WorkerResult : Type 0 where
  exited : Outbox → Option RunError → WorkerResult
  running : Outbox → WorkerResult
  no_result : WorkerResult

unfoldable pub run_thread : WorkerStopIntent → List Call → RunEnd → WorkerResult
run_thread intent calls (returned (finished p o reason)) =
    exited (exit_worker intent calls o reason) reason
run_thread intent calls (returned (waiting p o)) = running o
run_thread intent calls (returned undefined) = no_result
run_thread intent calls (thrown o) =
    exited
      (exit_worker intent calls (record o { run_thread_active = false }) (some worker_exception))
      (some worker_exception)
