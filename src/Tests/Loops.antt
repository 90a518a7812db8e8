-- ===== src/Tests/Loops.antt =====
-- Runs of the event loops and of the first registrations.
use native.Mathlib.Omega.{arith}
use drive_bus.Prelude.{◌≡◌, List, [], ◌∷◌, ◌++◌, none, some, Bool, true, false, refl}
use drive_bus.Protocol.{Received, packet}
use drive_bus.Outbox.{Outbox}
use drive_bus.Outbox.Accounts.{Accounted}
use drive_bus.Outbox.Worker.{run_calls}
use drive_bus.Outbox.Run.{
  Event, shutdown, Wait, arrived, RunResult, waiting, run, destroy, RunEnd, returned, run_thread,
  exited, on_events, run_loop, on_event, exit_worker,
}
use drive_bus.Outbox.Run.Exit.{run-shutdown}
use drive_bus.Outbox.Run.Thread.{Concluded, run_thread-once}
use drive_bus.Subscriber.Calls.{Reader, Turn, interrupted, subscribe, waiting, batch, no_fuel}
use drive_bus.Subscriber.Calls.Ends.{subscribe-ends}
use drive_bus.Subscriber.Events.{EventResult, handle_data_available_event}
use drive_bus.Subscriber.Rounds.{Calms, Answers, handle_data_available_event-Answers}
use drive_bus.Tests.Clients.{attachment}
use drive_bus.Publisher.Initial.{track_initial}
use drive_bus.Publisher.Initial.Descriptors.{Accounts, track_initial-Accounts}
use drive_bus.Tests.{empty_outbox, one_subscriber, zero_data}

-- Another thread publishes before the shutdown event.
abbrev shutdown_event : Event
shutdown_event = record {
  calls = record { signalled = true; payload = 1 ∷ [] } ∷ [];
  others = λ s. s;
  kind = shutdown true;
}

abbrev waits : List Wait
waits = arrived (shutdown_event ∷ []) ∷ []

empty-Accounted : Accounted empty_outbox
empty-Accounted = record {
  bounded = omega arith;
  once = λ t. ground arith;
  fifo = omega arith;
  in_order = tt;
}

abbrev ended_outbox : Outbox
ended_outbox =
    exit_worker destroy []
      (record (run_calls shutdown_event.calls empty_outbox) { run_thread_active = false }) none

abbrev run_end : RunEnd
run_end = returned (run waits one_subscriber empty_outbox)

ended : run_thread destroy [] run_end ≡ exited ended_outbox none
unfolding run run_loop on_events on_event run_thread
ended = refl

run_thread-once_example :
    Concluded destroy none ended_outbox 0 × (ended_outbox.run_thread_active ≡ false)
run_thread-once_example =
    run_thread-once destroy waits [] one_subscriber empty_outbox ended_outbox run_end none 0
      empty-Accounted refl ended

run-shutdown_example : ¬ (
    run
      (arrived (shutdown_event ∷ []) ∷ arrived ([] ++ shutdown_event ∷ []) ∷ [])
      one_subscriber
      empty_outbox
    ≡ RunResult.waiting one_subscriber empty_outbox)
run-shutdown_example =
    run-shutdown waits [] [] [] shutdown_event true one_subscriber one_subscriber empty_outbox
      empty_outbox refl

-- One attachment, whose last descriptor of the ring is to be read.
abbrev reader : Reader
reader = record {
  tables = record {
    attachment_by_event_fd = (40, attachment) ∷ [];
    event_fd_by_attachment_id = (5, 40) ∷ [];
    closed = [];
  };
  mapping = λ fd. zero_data;
  delivered = [];
}

abbrev turn : Bool → Turn
turn late = record {
  late = late;
  late_before_wait = false;
  wait = interrupted;
  answers = λ n i. record { mapped = true; watched = true };
  records = [];
  surroundings = record { drained = true; signal = λ round i. true; others = λ round s. s };
  fuel = 2;
  drained = true;
}

turn-Calms : Calms 0 (turn false).surroundings
turn-Calms = record { in_ring = λ round s h. h; calm = λ round s h. refl }

subscribe-ends_example :
    (¬ (subscribe (turn false ∷ turn true ∷ []) reader (5 ∷ []) ≡ waiting reader []))
    × (¬ (subscribe (turn false ∷ turn true ∷ []) reader (5 ∷ []) ≡ batch reader [] []))
    × (¬ (subscribe (turn false ∷ turn true ∷ []) reader (5 ∷ []) ≡ no_fuel))
subscribe-ends_example =
    subscribe-ends (turn false ∷ []) [] (turn true) reader reader (5 ∷ []) [] (λ fd. omega arith)
      ((0, turn-Calms, omega arith), tt) refl

handle_data_available_event-Answers_example :
    (x : EventResult) × (handle_data_available_event
        (turn false).surroundings
        2
        (some attachment)
        zero_data
      ≡ some x)
    × Answers x
handle_data_available_event-Answers_example =
    handle_data_available_event-Answers 0 (turn false).surroundings 2 (some attachment) zero_data
      turn-Calms (omega arith) (omega arith)

-- A registration for slot 3 with a descriptor.
abbrev registration : Received
registration = packet (record {
  bytes = 4 ∷ 3 ∷ 0 ∷ 0 ∷ 0 ∷ [];
  truncated = false;
  cmsg = some (record { is_rights = true; fd_data_size = 4; fds = 50 ∷ [] });
})

track_initial-Accounts_example :
    Accounts one_subscriber (registration ∷ []) (track_initial (registration ∷ []) one_subscriber)
track_initial-Accounts_example = track_initial-Accounts (registration ∷ []) one_subscriber
