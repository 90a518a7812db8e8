-- ===== src/Outbox.antt =====
-- The asynchronous queue of `Publisher`: `pending_messages_` and `in_flight_message_` of
-- include/publisher.hpp, and in src/publisher.cpp `publish(payload)`, the worker's
-- `handle_publish_work_event` and `complete_outstanding_messages`.
-- A message's promise and future are its ticket, a number given in the order of the calls;
-- `completions` holds the values that promises were given, the latest first. The members that the
-- mutex guards are one record, and what other threads do while the worker has released the mutex is
-- a list of calls.
pub mod Enqueue
pub mod Worker
pub mod Accounts
pub mod Work
pub mod Shutdown
pub mod Events
pub mod Run
use drive_bus.Prelude.{
  ℕ, zero, suc, ◌+◌, ◌-◌, List, [], ◌∷◌, ◌++◌, map, Option, none, some, Bool, true, false, not, ltb,
  leb, if◌then◌else◌, length,
}
use drive_bus.Publisher.{
  PublishError, mode_mismatch, payload_too_large, worker_exited, notification_failed,
}

abbrev pub max_outstanding_messages : ℕ
max_outstanding_messages = 64

-- `kMaxPayloadSizeBytes`: the largest class without the header.
abbrev pub max_payload_size_bytes : ℕ
max_payload_size_bytes = 1024 - 8

pub data PublishDisposition : Type 0 where
  published enqueued enqueued_after_overwriting_oldest : PublishDisposition

pub data PublishCompletion : Type 0 where
  published overwritten worker_stopped worker_failed : PublishCompletion

pub data PublishResult : Type 0 where
  ticket : PublishDisposition → ℕ → PublishResult
  error : PublishError → PublishResult

pub record PendingMessage : Type 0 where
  pub payload : List ℕ
  pub promise : ℕ

pub data InFlightState : Type 0 where
  publishing blocked : InFlightState

pub record InFlightMessage : Type 0 where
  pub message : PendingMessage
  pub state : InFlightState

pub record Outbox : Type 0 where
  pub pending_messages : List PendingMessage
  pub in_flight_message : Option InFlightMessage
  pub run_thread_active : Bool
  pub next_ticket : ℕ
  pub completions : List (ℕ × PublishCompletion)

-- `in_flight_message_.has_value() ? 1U : 0U`
abbrev pub in_flight_count : Option InFlightMessage → ℕ
in_flight_count none = 0
in_flight_count (some m) = 1

abbrev pub queued_message_count : Outbox → ℕ
queued_message_count o = length o.pending_messages + in_flight_count o.in_flight_message

-- `pending_messages_.front()` taken off. The code takes it only from a queue that is not empty.
unfoldable pub pop_pending : Outbox → List PendingMessage → Outbox × Option PendingMessage
pop_pending o [] = (o, none)
pop_pending o (m ∷ ms) = (record o { pending_messages = ms }, some m)

-- The message that makes room: the in-flight one if it is blocked, else the oldest that waits.
unfoldable pub overwrite_oldest : Outbox → Option InFlightMessage → Outbox × Option PendingMessage
unfolding pop_pending
overwrite_oldest o none = pop_pending o o.pending_messages
overwrite_oldest o (some f) = elim f.state [
  | blocked ↦ (record o { in_flight_message = none }, some f.message)
  | publishing ↦ pop_pending o o.pending_messages
]

unfoldable pub make_room : Outbox → Outbox × Option PendingMessage
unfolding overwrite_oldest
make_room o =
    if leb max_outstanding_messages (queued_message_count o)
    then overwrite_oldest o o.in_flight_message
    else (o, none)

-- `pending_messages_.pop_back()`
unfoldable pub pop_back : List PendingMessage → List PendingMessage
pop_back [] = []
pop_back (m ∷ []) = []
pop_back (m ∷ n ∷ ms) = m ∷ pop_back (n ∷ ms)

-- The message is appended; if the worker cannot be told, that is undone, and an overwritten message
-- goes to the front of the queue.
unfoldable pub finish_enqueue :
    Bool → List ℕ → Outbox → Option PendingMessage → Outbox × PublishResult
unfolding pop_back
finish_enqueue true payload o none = (
  record o {
    pending_messages =
        o.pending_messages ++ (record { payload = payload; promise = o.next_ticket }) ∷ [];
    next_ticket = o.next_ticket + 1;
  },
  ticket enqueued o.next_ticket,
)
finish_enqueue true payload o (some old) = (
  record o {
    pending_messages =
        o.pending_messages ++ (record { payload = payload; promise = o.next_ticket }) ∷ [];
    next_ticket = o.next_ticket + 1;
    completions = (old.promise, overwritten) ∷ o.completions;
  },
  ticket enqueued_after_overwriting_oldest o.next_ticket,
)
finish_enqueue false payload o none = (
  record o {
    pending_messages =
        pop_back
          (o.pending_messages ++ (record { payload = payload; promise = o.next_ticket }) ∷ []);
  },
  error notification_failed,
)
finish_enqueue false payload o (some old) = (
  record o {
    pending_messages =
        old
        ∷ pop_back
            (o.pending_messages ++ (record { payload = payload; promise = o.next_ticket }) ∷ []);
  },
  error notification_failed,
)

-- `publish(payload)`. `asynchronous` is the mode flag, `signalled` what `signal_eventfd` returns.
unfoldable pub publish : Bool → Bool → Outbox → List ℕ → Outbox × PublishResult
publish asynchronous signalled o payload =
    if not asynchronous
    then (o, error mode_mismatch)
    else if ltb max_payload_size_bytes (length payload)
    then (o, error payload_too_large)
    else if not o.run_thread_active
    then (o, error worker_exited)
    else let (o', old) = make_room o in finish_enqueue signalled payload o' old

abbrev pub complete_all :
    PublishCompletion
    → List PendingMessage
    → List (ℕ × PublishCompletion)
    → List (ℕ × PublishCompletion)
complete_all c [] log = log
complete_all c (m ∷ ms) log = complete_all c ms ((m.promise, c) ∷ log)

-- The in-flight message first, then those that wait. They stay in the queue.
unfoldable pub complete_outstanding_messages : PublishCompletion → Outbox → Outbox
complete_outstanding_messages c o = record o {
  completions = complete_all c o.pending_messages (elim o.in_flight_message [
    | none ↦ o.completions
    | some f ↦ (f.message.promise, c) ∷ o.completions
  ]);
}
