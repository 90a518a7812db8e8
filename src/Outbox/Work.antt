-- ===== src/Outbox/Work.antt =====
-- The worker keeps the accounts of the queue, whatever other threads do meanwhile, and the message
-- that it is publishing stays in flight.
use mathlib.Core.Path.{ap₂}
use drive_bus.Prelude.{
  ℕ, zero, suc, ◌+◌, ◌≡◌, refl, List, [], ◌∷◌, ◌++◌, Option, none, some, Bool, true, false, leb,
  length, arith, subst, sym, ap, Bool-cases, inl, inr,
}
use drive_bus.Publisher.{Publisher, blocked, succeeded}
use drive_bus.Publisher.Publish.{PublishOutcome, attempt, failed}
use drive_bus.Outbox.{
  Outbox, PendingMessage, InFlightMessage, InFlightState, queued_message_count, publish,
  max_outstanding_messages, make_room, overwrite_oldest, pop_pending, finish_enqueue,
  in_flight_count,
}
use drive_bus.Outbox.Enqueue.{tickets, in_flight_ticket, promises}
use drive_bus.Outbox.Accounts.{
  Accounted, Kept-Accounted, publish-Accounted, count_ticket, Rising, after_published,
}
use drive_bus.Outbox.Worker.{
  Call, run_calls, Surroundings, LoopEnd, ended, aborted, take_next, complete_in_flight,
  block_in_flight, work_loop, after_attempt, run_round, NextRound, handle_publish_work_event,
  finish_work,
}

-- The calls of other threads keep the accounts.
pub run_calls-Accounted : (cs : List Call) (o : Outbox) → Accounted o → Accounted (run_calls cs o)
unfolding run_calls
run_calls-Accounted [] o a = a
run_calls-Accounted (c ∷ cs) o a =
    run_calls-Accounted cs (publish true c.signalled o c.payload).0
      (publish-Accounted true c.signalled o c.payload a)

-- A message is being published.
abbrev pub Publishing : Outbox → PendingMessage → Type 0
Publishing o m =
    o.in_flight_message ≡ some (record { message = m; state = InFlightState.publishing })

pop-in_flight :
    (o : Outbox) (ms : List PendingMessage)
    → (pop_pending o ms).0.in_flight_message ≡ o.in_flight_message
unfolding pop_pending
pop-in_flight o [] = refl
pop-in_flight o (m ∷ ms) = refl

finish-in_flight :
    (y : Bool) (payload : List ℕ) (o : Outbox) (old : Option PendingMessage)
    → (finish_enqueue y payload o old).0.in_flight_message ≡ o.in_flight_message
unfolding finish_enqueue
finish-in_flight true payload o none = refl
finish-in_flight true payload o (some m) = refl
finish-in_flight false payload o none = refl
finish-in_flight false payload o (some m) = refl

overwrite-in_flight :
    (o : Outbox) (f : Option InFlightMessage) (m : PendingMessage)
    → f ≡ some (record { message = m; state = InFlightState.publishing })
    → (overwrite_oldest o f).0.in_flight_message ≡ o.in_flight_message
unfolding overwrite_oldest
overwrite-in_flight o f m e = rw e (pop-in_flight o o.pending_messages)

room-in_flight :
    (o : Outbox) (m : PendingMessage)
    → Publishing o m
    → (make_room o).0.in_flight_message ≡ o.in_flight_message
unfolding make_room
room-in_flight o m h = elim (Bool-cases (leb max_outstanding_messages (queued_message_count o))) [
  | inl e ↦ rw e (overwrite-in_flight o o.in_flight_message m h)
  | inr e ↦ rw e
]

-- A call of `publish(payload)` leaves the message that is in flight and being published in its place,
-- also when the queue is full.
pub publish-Publishing :
    (asynchronous signalled : Bool) (o : Outbox) (payload : List ℕ) (m : PendingMessage)
    → Publishing o m
    → Publishing (publish asynchronous signalled o payload).0 m
unfolding publish
publish-Publishing a y o payload m h =
    ground (arith, finish-in_flight y payload (make_room o).0 (make_room o).1, room-in_flight o m h)

pub run_calls-Publishing :
    (cs : List Call) (o : Outbox) (m : PendingMessage)
    → Publishing o m
    → Publishing (run_calls cs o) m
unfolding run_calls
run_calls-Publishing [] o m h = h
run_calls-Publishing (c ∷ cs) o m h =
    run_calls-Publishing cs (publish true c.signalled o c.payload).0 m
      (publish-Publishing true c.signalled o c.payload m h)

-- The message of a round is in flight, and the accounts are kept.
abbrev TakenOk : Option (Outbox × List ℕ) → Type 0
TakenOk none = Unit {0}
TakenOk (some (o, payload)) = Accounted o × ((m : PendingMessage) × Publishing o m)

take_next-Ok :
    (o : Outbox) (f : Option InFlightMessage) (ms : List PendingMessage)
    → o.in_flight_message ≡ f
    → o.pending_messages ≡ ms
    → Accounted o
    → TakenOk (take_next o f ms)
unfolding take_next
take_next-Ok o (some f) ms ef em a = (
  Kept-Accounted o _
      (record {
        same_tickets = ap (λ g. in_flight_ticket g ++ promises o.pending_messages) (sym ef);
        same_count = ap (λ g. length o.pending_messages + in_flight_count g) (sym ef);
        same_next = refl;
        same_completions = refl;
      })
      a,
  (f.message, refl),
)
take_next-Ok o none [] ef em a = tt
take_next-Ok o none (m ∷ ms) ef em a = (
  Kept-Accounted o _
      (record {
        same_tickets = ap₂ (λ g l. in_flight_ticket g ++ promises l) (sym ef) (sym em);
        same_count = omega (
          arith,
          ap₂
              (λ (g : Option InFlightMessage) (l : List PendingMessage).
                length l + in_flight_count g)
              ef em,
        );
        same_next = refl;
        same_completions = refl;
      })
      a,
  (m, refl),
)

complete-Accounted :
    (o : Outbox) (m : PendingMessage)
    → Publishing o m
    → Accounted o
    → Accounted (complete_in_flight o o.in_flight_message)
unfolding complete_in_flight
complete-Accounted o m h a = rw h (record {
  bounded = omega (arith, ap in_flight_count h);
  once = λ t. ground (arith, a.once t, ap (count_ticket t) outstanding);
  fifo = rising.1;
  in_order = (rising.0, a.in_order);
})
  where
    outstanding : tickets o ≡ m.promise ∷ promises o.pending_messages
    outstanding = ap (λ g. in_flight_ticket g ++ promises o.pending_messages) h

    rising :
        Rising
          (after_published o.completions)
          o.next_ticket
          (m.promise ∷ promises o.pending_messages)
    rising = subst (Rising (after_published o.completions) o.next_ticket) outstanding a.fifo

block-Accounted :
    (o : Outbox) (f : Option InFlightMessage)
    → o.in_flight_message ≡ f
    → Accounted o
    → Accounted (block_in_flight o f)
unfolding block_in_flight
block-Accounted o none e a = a
block-Accounted o (some f) e a =
    Kept-Accounted o _
      (record {
        same_tickets = ap (λ g. in_flight_ticket g ++ promises o.pending_messages) (sym e);
        same_count = ap (λ g. length o.pending_messages + in_flight_count g) (sym e);
        same_next = refl;
        same_completions = refl;
      })
      a

after_attempt-Accounted :
    (o : Outbox) (m : PendingMessage) (r : Publisher × PublishOutcome) (next : NextRound)
    → Publishing o m
    → Accounted o
    → ((p : Publisher) (o : Outbox) → Accounted o → Accounted (next p o).1)
    → Accounted (after_attempt o r next).1
unfolding after_attempt
after_attempt-Accounted o m (p, failed e) next h a keep = a
after_attempt-Accounted o m (p, attempt blocked) next h a keep =
    block-Accounted o o.in_flight_message refl a
after_attempt-Accounted o m (p, attempt succeeded) next h a keep =
    keep p _ (complete-Accounted o m h a)

run_round-Accounted :
    (env : Surroundings) (round : ℕ) (p : Publisher) (o : Outbox) (taken : Option (Outbox × List ℕ))
    (next : NextRound)
    → Accounted o
    → TakenOk taken
    → ((p : Publisher) (o : Outbox) → Accounted o → Accounted (next p o).1)
    → Accounted (run_round env round p o taken next).1
unfolding run_round
run_round-Accounted env round p o none next a ok keep = a
run_round-Accounted env round p o (some (o', payload)) next a (a', (m, h)) keep =
    after_attempt-Accounted (run_calls (env.calls round) o') m _ next
      (run_calls-Publishing (env.calls round) o' m h) (run_calls-Accounted (env.calls round) o' a')
      keep

work_loop-Accounted :
    (env : Surroundings) (left round : ℕ) (p : Publisher) (o : Outbox)
    → Accounted o
    → Accounted (work_loop env left round p o).1
unfolding work_loop
work_loop-Accounted env zero round p o a = a
work_loop-Accounted env (suc left) round p o a =
    run_round-Accounted env round p o _ (work_loop env left (round + 1)) a
      (take_next-Ok o o.in_flight_message o.pending_messages refl refl a)
      (work_loop-Accounted env left (round + 1))

finish_work-outbox :
    (env : Surroundings) (r : Publisher × Outbox × LoopEnd) → (finish_work env r).outbox ≡ r.1
unfolding finish_work
finish_work-outbox env (p, o, ended ready) = refl
finish_work-outbox env (p, o, aborted e) = refl

-- One run of the worker's handler keeps the accounts, on every branch and whatever other threads
-- and the subscribers do during it: every accepted message is outstanding or completed once, at most
-- 64 are outstanding, and the published ones were published in the order of acceptance.
pub handle_publish_work_event-Accounted :
    (env : Surroundings) (ready : Bool) (p : Publisher) (o : Outbox)
    → Accounted o
    → Accounted (handle_publish_work_event env ready p o).outbox
unfolding handle_publish_work_event
handle_publish_work_event-Accounted env ready p o a = ground (
  arith,
  subst Accounted (sym (finish_work-outbox env (work_loop env 64 0 p o)))
      (work_loop-Accounted env 64 0 p o a),
)
