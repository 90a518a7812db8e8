-- ===== src/Outbox/Run/Exit.antt =====
-- How the event loop of the worker of src/publisher.cpp ends.
use drive_bus.Prelude.{
  List, [], ◌∷◌, ◌++◌, Option, none, some, Bool, true, false, ◌≡◌, refl, sym, subst, arith,
}
use drive_bus.Publisher.{
  Publisher, RunError, shutdown_event_read_failed, epoll_wait_failed, unexpected_epoll_timeout,
}
use drive_bus.Outbox.{Outbox}
use drive_bus.Outbox.Accounts.{Accounted}
use drive_bus.Outbox.Worker.{run_calls, handle_publish_work_event}
use drive_bus.Outbox.Work.{run_calls-Accounted, handle_publish_work_event-Accounted}
use drive_bus.Outbox.Events.{handle_space_available_event, handle_broker_control_event}
use drive_bus.Outbox.Run.{
  EventKind, publish_work, space_available, broker_control, shutdown, other_event, Event, Wait,
  arrived, wait_failed, timed_out, RunResult, finished, waiting, undefined, Rest, finish_run,
  unless_failed, after_control, on_event, on_events, run_loop, run,
}

-- The accounts are kept, and a worker that has ended is not active.
abbrev pub Kept : RunResult → Type 0
Kept (finished p o reason) = Accounted o × (o.run_thread_active ≡ false)
Kept (waiting p o) = Accounted o
Kept undefined = Unit {0}

abbrev pub Keeps : Rest → Type 0
Keeps next = (p : Publisher) (o : Outbox) (ready : Bool) → Accounted o → Kept (next p o ready)

finish_run-Kept :
    (p : Publisher) (o : Outbox) (reason : Option RunError)
    → Accounted o
    → Kept (finish_run p o reason)
finish_run-Kept p o reason a =
    (record { bounded = a.bounded; once = a.once; fifo = a.fifo; in_order = a.in_order }, refl)

unless_failed-Kept :
    (p : Publisher) (o : Outbox) (ready : Bool) (e : Option RunError) (next : Rest)
    → Keeps next
    → Accounted o
    → Kept (unless_failed p o ready e next)
unfolding unless_failed
unless_failed-Kept p o ready none next h a = h p o ready a
unless_failed-Kept p o ready (some e) next h a = finish_run-Kept p o (some e) a

after_control-Kept :
    (o : Outbox) (r : Option (Publisher × Bool × Option RunError)) (next : Rest)
    → Keeps next
    → Accounted o
    → Kept (after_control o r next)
unfolding after_control
after_control-Kept o none next h a = tt
after_control-Kept o (some (p, ready, e)) next h a = unless_failed-Kept p o ready e next h a

on_event-Kept :
    (e : EventKind) (p : Publisher) (o : Outbox) (ready : Bool) (next : Rest)
    → Keeps next
    → Accounted o
    → Kept (on_event e p o ready next)
unfolding on_event
on_event-Kept (publish_work env) p o ready next h a =
    let r = handle_publish_work_event env ready p o in
    unless_failed-Kept r.publisher r.outbox r.publisher_ready r.error next h
      (handle_publish_work_event-Accounted env ready p o a)
on_event-Kept (space_available drained signalled) p o ready next h a =
    let r = handle_space_available_event drained signalled ready p o in
    unless_failed-Kept p o r.0 r.1 next h a
on_event-Kept (broker_control records signalled) p o ready next h a =
    after_control-Kept o (handle_broker_control_event records signalled ready p o) next h a
on_event-Kept (shutdown true) p o ready next h a = finish_run-Kept p o none a
on_event-Kept (shutdown false) p o ready next h a =
    finish_run-Kept p o (some shutdown_event_read_failed) a
on_event-Kept other_event p o ready next h a = h p o ready a

on_events-Kept : (es : List Event) (next : Rest) → Keeps next → Keeps (on_events es next)
unfolding on_events
on_events-Kept [] next h p o ready a = h p o ready a
on_events-Kept (e ∷ es) next h p o ready a =
    on_event-Kept e.kind _ (run_calls e.calls o) ready (on_events es next)
      (on_events-Kept es next h) (run_calls-Accounted e.calls o a)

pub run_loop-Kept : (ws : List Wait) → Keeps (run_loop ws)
unfolding run_loop
run_loop-Kept [] p o ready a = a
run_loop-Kept (wait_failed ∷ ws) p o ready a = finish_run-Kept p o (some epoll_wait_failed) a
run_loop-Kept (timed_out ∷ ws) p o ready a = finish_run-Kept p o (some unexpected_epoll_timeout) a
run_loop-Kept (arrived [] ∷ ws) p o ready a = finish_run-Kept p o (some unexpected_epoll_timeout) a
run_loop-Kept (arrived (e ∷ es) ∷ ws) p o ready a =
    on_events-Kept (e ∷ es) (run_loop ws) (run_loop-Kept ws) p o ready a

-- The rest of the loop does not wait on.
abbrev Ends : Rest → Type 0
Ends next = (p q : Publisher) (o o' : Outbox) (ready : Bool) → ¬ (next p o ready ≡ waiting q o')

unless_failed-Ends :
    (e : Option RunError) (next : Rest)
    → Ends next
    → Ends (λ p o ready. unless_failed p o ready e next)
unfolding unless_failed
unless_failed-Ends none next h p q o o' ready = h p q o o' ready
unless_failed-Ends (some e) next h p q o o' ready = λ x. absurd (ground arith)

after_control-Ends :
    (r : Option (Publisher × Bool × Option RunError)) (next : Rest)
    → Ends next
    → (q : Publisher) (o o' : Outbox) → ¬ (after_control o r next ≡ waiting q o')
unfolding after_control
after_control-Ends none next h q o o' = λ x. absurd (ground arith)
after_control-Ends (some (p, ready, e)) next h q o o' = unless_failed-Ends e next h p q o o' ready

on_event-Ends :
    (e : EventKind) (next : Rest) → Ends next → Ends (λ p o ready. on_event e p o ready next)
unfolding on_event
on_event-Ends (publish_work env) next h p q o o' ready =
    let r = handle_publish_work_event env ready p o in
    unless_failed-Ends r.error next h r.publisher q r.outbox o' r.publisher_ready
on_event-Ends (space_available drained signalled) next h p q o o' ready =
    let r = handle_space_available_event drained signalled ready p o in
    unless_failed-Ends r.1 next h p q o o' r.0
on_event-Ends (broker_control records signalled) next h p q o o' ready =
    after_control-Ends (handle_broker_control_event records signalled ready p o) next h q o o'
on_event-Ends (shutdown true) next h p q o o' ready = λ x. absurd (ground arith)
on_event-Ends (shutdown false) next h p q o o' ready = λ x. absurd (ground arith)
on_event-Ends other_event next h p q o o' ready = h p q o o' ready

on_events-Ends : (es : List Event) (next : Rest) → Ends next → Ends (on_events es next)
unfolding on_events
on_events-Ends [] next h p q o o' ready = h p q o o' ready
on_events-Ends (e ∷ es) next h p q o o' ready =
    on_event-Ends e.kind (on_events es next) (on_events-Ends es next h) _ q _ o' ready

shutdown_now :
    (drained : Bool) (next : Rest) → Ends (λ p o ready. on_event (shutdown drained) p o ready next)
unfolding on_event
shutdown_now true next p q o o' ready = λ x. absurd (ground arith)
shutdown_now false next p q o o' ready = λ x. absurd (ground arith)

-- A shutdown event among the events of a wait.
shutdown-Ends :
    (es es' : List Event) (e : Event) (drained : Bool) (next : Rest)
    → e.kind ≡ shutdown drained
    → Ends (on_events (es ++ e ∷ es') next)
unfolding on_events
shutdown-Ends [] es' e drained next k p q o o' ready =
    subst
      (λ y. ¬ (
        on_event y (record p { shared_data = e.others p.shared_data }) (run_calls e.calls o) ready
          (on_events es' next)
        ≡ waiting q o'))
      (sym k)
      (shutdown_now drained (on_events es' next) (record p { shared_data = e.others p.shared_data })
        q (run_calls e.calls o) o' ready)
shutdown-Ends (x ∷ es) es' e drained next k p q o o' ready =
    on_event-Ends x.kind (on_events (es ++ e ∷ es') next) (shutdown-Ends es es' e drained next k) _
      q _ o' ready

shutdown_wait-Ends :
    (es es' : List Event) (e : Event) (drained : Bool) (ws : List Wait)
    → e.kind ≡ shutdown drained
    → Ends (run_loop (arrived (es ++ e ∷ es') ∷ ws))
unfolding run_loop
shutdown_wait-Ends [] es' e drained ws k = shutdown-Ends [] es' e drained (run_loop ws) k
shutdown_wait-Ends (x ∷ es) es' e drained ws k =
    shutdown-Ends (x ∷ es) es' e drained (run_loop ws) k

before-Ends : (before ws : List Wait) → Ends (run_loop ws) → Ends (run_loop (before ++ ws))
unfolding run_loop
before-Ends [] ws h p q o o' ready = h p q o o' ready
before-Ends (wait_failed ∷ before) ws h p q o o' ready = λ x. absurd (ground arith)
before-Ends (timed_out ∷ before) ws h p q o o' ready = λ x. absurd (ground arith)
before-Ends (arrived [] ∷ before) ws h p q o o' ready = λ x. absurd (ground arith)
before-Ends (arrived (e ∷ es) ∷ before) ws h p q o o' ready =
    on_events-Ends (e ∷ es) (run_loop (before ++ ws)) (before-Ends before ws h) p q o o' ready

-- Once a shutdown event is among those that `epoll_wait` gives, the event loop of the worker comes to its
-- end, whatever events are before it: it does not wait for more.
pub run-shutdown :
    (before after : List Wait) (es es' : List Event) (e : Event) (drained : Bool) (p q : Publisher)
    (o o' : Outbox)
    → e.kind ≡ shutdown drained
    → ¬ (run (before ++ arrived (es ++ e ∷ es') ∷ after) p o ≡ waiting q o')
unfolding run
run-shutdown before after es es' e drained p q o o' k =
    before-Ends before (arrived (es ++ e ∷ es') ∷ after)
      (shutdown_wait-Ends es es' e drained after k) p q o o' true
