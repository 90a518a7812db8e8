-- ===== src/Publisher/Sync/Deadline.antt =====
-- The deadline of `Publisher::publish(payload, timeout)` of src/publisher.cpp.
use native.Mathlib.Omega.{arith}
use drive_bus.Prelude.{
  ℕ, ◌+◌, List, [], ◌∷◌, ◌++◌, Option, none, some, Bool, true, Bool-cases, inl, inr, ◌≡◌, ◌⊎◌, ltb,
  length,
}
use drive_bus.Publisher.{Publisher, PublishAttempt, RunError}
use drive_bus.Publisher.Control.{process_broker_control_messages}
use drive_bus.Publisher.Publish.{PublishOutcome, attempt, failed}
use drive_bus.Publisher.Sync.{
  Event, space_available, broker_control, other_event, Wait, arrived, timed_out, interrupted,
  wait_failed, Turn, SyncResult, waiting, after_control, on_event, process_events, after_wait,
  after_attempt, attempt_round, publish_loop, publish_sync,
}
use drive_bus.Outbox.{max_payload_size_bytes}

-- A result that is one: the call does not wait on.
abbrev Ends : SyncResult → Type 0
Ends r = ¬ (r ≡ waiting)

after_control-Ends :
    (left : List Event) (r : Option (Publisher × Option RunError)) (next : Publisher → SyncResult)
    → ((p : Publisher) → Ends (next p))
    → Ends (after_control left r next)
unfolding after_control
after_control-Ends left none next h = λ e. absurd (ground arith)
after_control-Ends left (some (p, none)) next h = h p
after_control-Ends left (some (p, some x)) next h = λ e. absurd (ground arith)

on_event-Ends :
    (t : Turn) (n : ℕ) (e : Event) (left : List Event) (p : Publisher)
    (rest : Publisher → SyncResult)
    → ((p' : Publisher) → Ends (rest p'))
    → Ends (on_event t n e left p rest)
unfolding on_event
on_event-Ends t n space_available left p rest h = elim (Bool-cases (t.drained n)) [
  | inl d ↦ rw d (h p)
  | inr d ↦ rw d (λ x. absurd (ground arith))
]
on_event-Ends t n broker_control left p rest h =
    after_control-Ends left (process_broker_control_messages (t.records n) p) rest h
on_event-Ends t n other_event left p rest h = h p

process_events-Ends :
    (t : Turn) (n : ℕ) (next : Publisher → SyncResult) (es : List Event) (p : Publisher)
    → ((p' : Publisher) → Ends (next p'))
    → Ends (process_events t n next es p)
unfolding process_events
process_events-Ends t n next [] p h = h p
process_events-Ends t n next (e ∷ es) p h = elim (Bool-cases (t.late n)) [
  | inl l ↦ rw l (λ x. absurd (ground arith))
  | inr l ↦ rw l (
      on_event-Ends t n e (e ∷ es) p (process_events t (n + 1) next es)
        (λ p'. process_events-Ends t (n + 1) next es p' h))
]

-- The rest of a round ends if the next round does, or if the clock is past the deadline after its
-- attempt.
after_wait-Ends :
    (w : Wait) (p : Publisher) (next : List Event → SyncResult)
    → ((es : List Event) → Ends (next es))
    → Ends (after_wait w p next)
unfolding after_wait
after_wait-Ends (arrived es) p next h = h es
after_wait-Ends interrupted p next h = h []
after_wait-Ends timed_out p next h = λ e. absurd (ground arith)
after_wait-Ends wait_failed p next h = λ e. absurd (ground arith)

after_attempt-Ends :
    (t : Turn) (r : Publisher × PublishOutcome) (next : Publisher → List Event → SyncResult)
    → (t.late_after_attempt ≡ true) ⊎ ((p' : Publisher) (es : List Event) → Ends (next p' es))
    → Ends (after_attempt t r next)
unfolding after_attempt
after_attempt-Ends t (p, failed x) next h = λ e. absurd (ground arith)
after_attempt-Ends t (p, attempt PublishAttempt.succeeded) next h = λ e. absurd (ground arith)
after_attempt-Ends t (p, attempt PublishAttempt.blocked) next (inl l) =
    rw l (λ e. absurd (ground arith))
after_attempt-Ends t (p, attempt PublishAttempt.blocked) next (inr h) =
    elim (Bool-cases t.late_after_attempt) [
      | inl l ↦ rw l (λ e. absurd (ground arith))
      | inr l ↦ rw l (after_wait-Ends t.wait p (next p) (h p))
    ]

attempt_round-Ends :
    (t : Turn) (payload : List ℕ) (next : Publisher → List Event → SyncResult)
    → (t.late_after_attempt ≡ true) ⊎ ((p' : Publisher) (es : List Event) → Ends (next p' es))
    → (p : Publisher) → Ends (attempt_round t payload next p)
unfolding attempt_round
attempt_round-Ends t payload next h p = elim (Bool-cases t.late_before_attempt) [
  | inl l ↦ rw l (λ e. absurd (ground arith))
  | inr l ↦ simp l (after_attempt-Ends t _ next h)
]

publish_loop-Ends :
    (front : List Turn) (t : Turn) (payload : List ℕ) (p : Publisher) (es : List Event)
    → t.late_after_attempt ≡ true
    → Ends (publish_loop (front ++ t ∷ []) payload p es)
unfolding publish_loop
publish_loop-Ends [] t payload p es late =
    process_events-Ends t 0 _ es p (attempt_round-Ends t payload _ (inl late))
publish_loop-Ends (f ∷ front) t payload p es late =
    process_events-Ends f 0 _ es p (
      attempt_round-Ends f payload _
        (inr (λ p' es'. publish_loop-Ends front t payload p' es' late)))

-- A synchronous publish whose clock is past the deadline after the attempt of some round has returned
-- by the end of that round, whatever the events, the subscribers and the broker did before.
pub publish_sync-ends :
    (synchronous : Bool) (front : List Turn) (t : Turn) (payload : List ℕ) (p : Publisher)
    (es : List Event)
    → t.late_after_attempt ≡ true
    → ¬ (publish_sync synchronous (front ++ t ∷ []) payload p es ≡ waiting)
unfolding publish_sync
publish_sync-ends synchronous front t payload p es late = elim (Bool-cases synchronous) [
  | inr a ↦ rw a (λ e. absurd (ground arith))
  | inl a ↦ rw a (elim (Bool-cases (ltb max_payload_size_bytes (length payload))) [
    | inl b ↦ rw b (λ e. absurd (ground arith))
    | inr b ↦ rw b (publish_loop-Ends front t payload p es late)
  ])
]
