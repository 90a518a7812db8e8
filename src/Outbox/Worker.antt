-- ===== src/Outbox/Worker.antt =====
-- `Publisher::handle_publish_work_event` of src/publisher.cpp. The mutex is free while the worker
-- tries to publish, so in each round other threads may call `publish(payload)`, and between two
-- attempts the subscribers may change the shared data; an attempt itself is one step.
use drive_bus.Prelude.{
  ℕ, zero, suc, ◌+◌, List, [], ◌∷◌, Option, none, some, Bool, true, false, not, ◌&&◌, ◌||◌,
  if◌then◌else◌,
}
use drive_bus.Shared.{SharedData}
use drive_bus.Publisher.{
  Publisher, blocked, succeeded, RunError, publish_work_event_read_failed,
  publish_work_reschedule_failed,
}
use drive_bus.Publisher.Publish.{PublishOutcome, attempt, failed, try_publish_one}
use drive_bus.Outbox.{
  Outbox, PendingMessage, InFlightMessage, InFlightState, publish, PublishCompletion,
}

-- A call of `publish(payload)` by another thread, with the answer of its event write.
pub record Call : Type 0 where
  pub signalled : Bool
  pub payload : List ℕ

unfoldable pub run_calls : List Call → Outbox → Outbox
run_calls [] o = o
run_calls (c ∷ cs) o = run_calls cs (publish true c.signalled o c.payload).0

-- What surrounds one run of the handler: the answers of the event descriptors, the changes of the
-- subscribers before each attempt, and the calls of other threads during it.
pub record Surroundings : Type 0 where
  pub drained : Bool
  pub signal : ℕ → ℕ → Bool
  pub others : ℕ → SharedData → SharedData
  pub calls : ℕ → List Call
  pub rescheduled : Bool

pub data LoopEnd : Type 0 where
  ended : Bool → LoopEnd
  aborted : RunError → LoopEnd

abbrev pub max_publishes_per_work_event : ℕ
max_publishes_per_work_event = 64

-- The message of a round: the one in flight, or the oldest that waits. `none` ends the loop.
unfoldable pub take_next :
    Outbox → Option InFlightMessage → List PendingMessage → Option (Outbox × List ℕ)
take_next o (some f) ms = some (
  record o { in_flight_message = some (record f { state = InFlightState.publishing }) },
  f.message.payload,
)
take_next o none [] = none
take_next o none (m ∷ ms) = some (
  record o {
    pending_messages = ms;
    in_flight_message = some (record { message = m; state = InFlightState.publishing });
  },
  m.payload,
)

-- The message in flight is published.
unfoldable pub complete_in_flight : Outbox → Option InFlightMessage → Outbox
complete_in_flight o none = o
complete_in_flight o (some f) = record o {
  in_flight_message = none;
  completions = (f.message.promise, PublishCompletion.published) ∷ o.completions;
}

-- The message in flight waits for room.
unfoldable pub block_in_flight : Outbox → Option InFlightMessage → Outbox
block_in_flight o none = o
block_in_flight o (some f) = record o {
  in_flight_message = some (record f { state = InFlightState.blocked });
}

-- The rest of the loop, which a round may or may not run.
abbrev pub NextRound : Type 0
NextRound = Publisher → Outbox → Publisher × Outbox × LoopEnd

-- What follows an attempt, with the queue as other threads have left it.
unfoldable pub after_attempt :
    Outbox → Publisher × PublishOutcome → NextRound → Publisher × Outbox × LoopEnd
after_attempt o (p, failed e) next = (p, o, aborted e)
after_attempt o (p, attempt blocked) next = (p, block_in_flight o o.in_flight_message, ended false)
after_attempt o (p, attempt succeeded) next = next p (complete_in_flight o o.in_flight_message)

unfoldable pub run_round :
    Surroundings
    → ℕ
    → Publisher
    → Outbox
    → Option (Outbox × List ℕ)
    → NextRound
    → Publisher × Outbox × LoopEnd
run_round env round p o none next = (p, o, ended true)
run_round env round p o (some (taken, payload)) next =
    after_attempt (run_calls (env.calls round) taken)
      (try_publish_one (env.signal round)
        (record p { shared_data = env.others round p.shared_data }) payload)
      next

-- The loop from `round` on, with the rounds that are left.
unfoldable pub work_loop : Surroundings → ℕ → ℕ → Publisher → Outbox → Publisher × Outbox × LoopEnd
work_loop env zero round p o = (p, o, ended true)
work_loop env (suc left) round p o =
    let next = work_loop env left (round + 1) in
    run_round env round p o (take_next o o.in_flight_message o.pending_messages) next

pub record WorkResult : Type 0 where
  pub publisher : Publisher
  pub outbox : Outbox
  pub publisher_ready : Bool
  pub error : Option RunError

-- `in_flight_message_.has_value() && in_flight_message_->state == InFlightState::Blocked`
abbrev pub is_blocked_in_flight : Option InFlightMessage → Bool
is_blocked_in_flight none = false
is_blocked_in_flight (some f) = elim f.state [
  | InFlightState.blocked ↦ true
  | InFlightState.publishing ↦ false
]

-- `pending_messages_.empty() && !in_flight_message_.has_value()`
abbrev pub is_idle : Outbox → Bool
is_idle o = elim o.pending_messages [
  | [] ↦ elim o.in_flight_message [ none ↦ true | some f ↦ false ]
  | ◌∷◌ m ms ↦ false
]

-- What follows the loop: the event is raised again if work is left and there is room.
unfoldable pub finish_work : Surroundings → Publisher × Outbox × LoopEnd → WorkResult
finish_work env (p, o, aborted e) = record {
  publisher = p;
  outbox = o;
  publisher_ready = true;
  error = some e;
}
finish_work env (p, o, ended ready) = record {
  publisher = p;
  outbox = o;
  publisher_ready = ready;
  error =
      if not ready || is_idle o
      then none
      else if env.rescheduled
      then none
      else some publish_work_reschedule_failed;
}

unfoldable pub handle_publish_work_event : Surroundings → Bool → Publisher → Outbox → WorkResult
handle_publish_work_event env ready p o =
    if not env.drained
    then record {
      publisher = p;
      outbox = o;
      publisher_ready = ready;
      error = some publish_work_event_read_failed;
    }
    else if not ready && is_blocked_in_flight o.in_flight_message
    then record { publisher = p; outbox = o; publisher_ready = ready; error = none }
    else finish_work env (work_loop env max_publishes_per_work_event 0 p o)
