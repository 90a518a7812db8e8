-- ===== src/Outbox/Shutdown.antt =====
-- `Publisher::complete_outstanding_messages` of src/publisher.cpp, with which the worker's end leaves
-- no promise open.
use drive_bus.Prelude.{
  ℕ, ◌+◌, List, [], ◌∷◌, Option, none, some, ◌≡◌, refl, ltb, if◌then◌else◌, arith,
}
use drive_bus.Outbox.{
  Outbox, PendingMessage, InFlightMessage, PublishCompletion, complete_all,
  complete_outstanding_messages,
}
use drive_bus.Outbox.Enqueue.{in_flight_ticket, promises}
use drive_bus.Outbox.Accounts.{Accounted, completed, count_ticket, count_ticket-append}

completed-all :
    (c : PublishCompletion) (ms : List PendingMessage) (log : List (ℕ × PublishCompletion)) (t : ℕ)
    → count_ticket t (completed (complete_all c ms log))
      ≡ count_ticket t (promises ms) + count_ticket t (completed log)
completed-all c [] log t = omega arith
completed-all c (m ∷ ms) log t = omega (arith, completed-all c ms ((m.promise, c) ∷ log) t)

log-tickets :
    (c : PublishCompletion) (o : Outbox) (f : Option InFlightMessage) (t : ℕ)
    → o.in_flight_message ≡ f
    → count_ticket t (completed (complete_outstanding_messages c o).completions)
      ≡ count_ticket t (in_flight_ticket f)
        + (count_ticket t (promises o.pending_messages) + count_ticket t (completed o.completions))
unfolding complete_outstanding_messages
log-tickets c o none t e = rw e (omega (arith, completed-all c o.pending_messages o.completions t))
log-tickets c o (some f) t e =
    rw e
      (omega (arith, completed-all c o.pending_messages ((f.message.promise, c) ∷ o.completions) t))

-- When the accounts of the queue are kept, then after `complete_outstanding_messages` every accepted
-- message has been completed, and exactly once; no other has.
pub complete_outstanding_messages-once :
    (c : PublishCompletion) (o : Outbox) (t : ℕ)
    → Accounted o
    → count_ticket t (completed (complete_outstanding_messages c o).completions)
      ≡ (if ltb t o.next_ticket then 1 else 0)
complete_outstanding_messages-once c o t a = omega (
  arith,
  a.once t,
  log-tickets c o o.in_flight_message t refl,
  count_ticket-append t (in_flight_ticket o.in_flight_message) (promises o.pending_messages),
)
