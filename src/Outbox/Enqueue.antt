-- ===== src/Outbox/Enqueue.antt =====
-- What one call of `publish(payload)` does to the queue.
use drive_bus.Prelude.{
  ℕ, ◌+◌, ◌≤◌, ◌<◌, ◌≡◌, inl, inr, refl, List, [], ◌∷◌, ◌++◌, Option, none, some, Bool, true, false,
  not, ltb, leb, length, length-append, arith, Bool-cases, ap, sym, ◌∙◌, append_assoc,
}
use drive_bus.Publisher.{
  PublishError, notification_failed, mode_mismatch, payload_too_large, worker_exited,
}
use drive_bus.Outbox.{
  Outbox, PendingMessage, InFlightMessage, InFlightState, blocked, publishing, PublishCompletion,
  overwritten, PublishResult, ticket, error, enqueued, enqueued_after_overwriting_oldest, publish,
  make_room, overwrite_oldest, pop_back, finish_enqueue, max_payload_size_bytes,
  queued_message_count, max_outstanding_messages,
}

-- The ticket of the message in flight.
abbrev pub in_flight_ticket : Option InFlightMessage → List ℕ
in_flight_ticket none = []
in_flight_ticket (some f) = f.message.promise ∷ []

abbrev pub promises : List PendingMessage → List ℕ
promises [] = []
promises (m ∷ ms) = m.promise ∷ promises ms

-- The tickets that are not completed, in the order in which their messages are to be published.
abbrev pub tickets : Outbox → List ℕ
tickets o = in_flight_ticket o.in_flight_message ++ promises o.pending_messages

pub pop_back-append : (ms : List PendingMessage) (m : PendingMessage) → pop_back (ms ++ m ∷ []) ≡ ms
unfolding pop_back
pop_back-append [] m = refl
pop_back-append (x ∷ []) m = refl
pop_back-append (x ∷ y ∷ ms) m = ap (λ l. x ∷ l) (pop_back-append (y ∷ ms) m)

pub promises-append :
    (ms ns : List PendingMessage) → promises (ms ++ ns) ≡ promises ms ++ promises ns
promises-append [] ns = refl
promises-append (m ∷ ms) ns = ap (λ l. m.promise ∷ l) (promises-append ms ns)

-- What room is made in a queue: none is needed below the limit; at the limit one message goes, the
-- one in flight if it is blocked and else the oldest that waits, and with that message put back in
-- front of the others that wait the tickets stand as before.
pub data Room (o : Outbox) : Outbox × Option PendingMessage → Type 0 where
  enough : queued_message_count o < max_outstanding_messages → Room o (o, none)
  made :
      (o' : Outbox) (m : PendingMessage)
      → max_outstanding_messages ≤ queued_message_count o
      → queued_message_count o' + 1 ≡ queued_message_count o
      → in_flight_ticket o'.in_flight_message ++ m.promise ∷ promises o'.pending_messages
        ≡ tickets o
      → o'.next_ticket ≡ o.next_ticket
      → o'.completions ≡ o.completions
      → Room o (o', some m)

-- A queue, by its members.
abbrev outbox_of :
    List PendingMessage → Option InFlightMessage → Bool → ℕ → List (ℕ × PublishCompletion) → Outbox
outbox_of ms f active next done = record {
  pending_messages = ms;
  in_flight_message = f;
  run_thread_active = active;
  next_ticket = next;
  completions = done;
}

module _ (active : Bool) (next : ℕ) (done : List (ℕ × PublishCompletion)) where
  overwrite_in_flight-Room :
      (ms : List PendingMessage) (m : PendingMessage) (st : InFlightState)
      → let f : Option InFlightMessage = some (record { message = m; state = st }) in
        let o = outbox_of ms f active next done in
        max_outstanding_messages ≤ queued_message_count o → Room o (overwrite_oldest o f)
  unfolding overwrite_oldest
  overwrite_in_flight-Room ms m blocked h =
      made (outbox_of ms none active next done) m h (omega arith) refl refl refl
  overwrite_in_flight-Room [] m publishing h = absurd (omega arith)
  overwrite_in_flight-Room (n ∷ ms) m publishing h =
      made (outbox_of ms (some (record { message = m; state = publishing })) active next done) n h
        (omega arith) refl refl refl

  overwrite-Room :
      (ms : List PendingMessage) (f : Option InFlightMessage)
      → let o = outbox_of ms f active next done in
        max_outstanding_messages ≤ queued_message_count o → Room o (overwrite_oldest o f)
  unfolding overwrite_oldest
  overwrite-Room [] none h = absurd (omega arith)
  overwrite-Room (m ∷ ms) none h =
      made (outbox_of ms none active next done) m h (omega arith) refl refl refl
  overwrite-Room ms (some f) h = overwrite_in_flight-Room ms f.message f.state h

make_room-Room : (o : Outbox) → Room o (make_room o)
unfolding make_room
make_room-Room o = elim (Bool-cases (leb max_outstanding_messages (queued_message_count o))) [
  | inl e ↦ rw e (
      overwrite-Room o.run_thread_active o.next_ticket o.completions o.pending_messages
        o.in_flight_message (ground arith))
  | inr e ↦ rw e (enough (ground arith))
]

-- What a call of `publish(payload)` may do: it fails and leaves the tickets, their number and the
-- completions as they were, or it adds the next ticket at the end, after completing one ticket as
-- overwritten where the queue was full.
pub record Kept (o o' : Outbox) : Type 0 where
  pub same_tickets : tickets o' ≡ tickets o
  pub same_count : queued_message_count o' ≡ queued_message_count o
  pub same_next : o'.next_ticket ≡ o.next_ticket
  pub same_completions : o'.completions ≡ o.completions

pub data CallEffect (o : Outbox) : Outbox × PublishResult → Type 0 where
  refused : (o' : Outbox) (e : PublishError) → Kept o o' → CallEffect o (o', error e)
  appended :
      (o' : Outbox) (id : ℕ)
      → id ≡ o.next_ticket
      → queued_message_count o < max_outstanding_messages
      → queued_message_count o' ≡ queued_message_count o + 1
      → tickets o' ≡ tickets o ++ o.next_ticket ∷ []
      → o'.next_ticket ≡ o.next_ticket + 1
      → o'.completions ≡ o.completions
      → CallEffect o (o', ticket enqueued id)
  replaced :
      (o' : Outbox) (id : ℕ) (front back : List ℕ) (old : ℕ)
      → id ≡ o.next_ticket
      → max_outstanding_messages ≤ queued_message_count o
      → queued_message_count o' ≡ queued_message_count o
      → tickets o ≡ front ++ old ∷ back
      → length front ≤ 1
      → tickets o' ≡ front ++ (back ++ o.next_ticket ∷ [])
      → o'.next_ticket ≡ o.next_ticket + 1
      → o'.completions ≡ (old, overwritten) ∷ o.completions
      → CallEffect o (o', ticket enqueued_after_overwriting_oldest id)

length-in_flight : (f : Option InFlightMessage) → length (in_flight_ticket f) ≤ 1
length-in_flight none = omega arith
length-in_flight (some f) = omega arith

finish-CallEffect :
    (signalled : Bool) (payload : List ℕ) (o : Outbox) (r : Outbox × Option PendingMessage)
    → Room o r
    → CallEffect o (finish_enqueue signalled payload r.0 r.1)
unfolding finish_enqueue
finish-CallEffect true payload o _ (enough h) =
    appended _ o.next_ticket refl h (omega (arith, length-append o.pending_messages (message ∷ [])))
      (ap (λ l. in_flight_ticket o.in_flight_message ++ l)
          (promises-append o.pending_messages (message ∷ []))
        ∙ sym (
            append_assoc (in_flight_ticket o.in_flight_message) (promises o.pending_messages)
              (o.next_ticket ∷ [])))
      refl refl
  where
    message : PendingMessage
    message = record { payload = payload; promise = o.next_ticket }
finish-CallEffect false payload o _ (enough h) = refused _ notification_failed (
    rw (pop_back-append o.pending_messages (record { payload = payload; promise = o.next_ticket }))
      (record {
        same_tickets = refl;
        same_count = refl;
        same_next = refl;
        same_completions = refl;
      }))
finish-CallEffect true payload o _ (made o' m h n t e d) =
    replaced _ o'.next_ticket (in_flight_ticket o'.in_flight_message) (promises o'.pending_messages)
      m.promise e h (omega (arith, length-append o'.pending_messages (message ∷ []))) (sym t)
      (length-in_flight o'.in_flight_message)
      (ap (λ l. in_flight_ticket o'.in_flight_message ++ l)
        (promises-append o'.pending_messages (message ∷ [])
          ∙ ap (λ k. promises o'.pending_messages ++ k ∷ []) e))
      (ap (λ k. k + 1) e) (ap (λ l. (m.promise, overwritten) ∷ l) d)
  where
    message : PendingMessage
    message = record { payload = payload; promise = o'.next_ticket }
finish-CallEffect false payload o _ (made o' m h n t e d) = refused _ notification_failed (
    rw
      (pop_back-append o'.pending_messages (record { payload = payload; promise = o'.next_ticket }))
      (record { same_tickets = t; same_count = omega arith; same_next = e; same_completions = d }))

Kept-refl : (o : Outbox) → Kept o o
Kept-refl o = record {
  same_tickets = refl;
  same_count = refl;
  same_next = refl;
  same_completions = refl;
}

-- Every call of `publish(payload)` ends in one of three ways: it is refused, and the tickets, their
-- number, the next ticket and the completions stay as they were; or it is appended behind the others;
-- or, with 64 outstanding, it replaces one message, whose ticket is completed as overwritten.
pub publish-CallEffect :
    (asynchronous signalled : Bool) (o : Outbox) (payload : List ℕ)
    → CallEffect o (publish asynchronous signalled o payload)
unfolding publish
publish-CallEffect a s o payload = elim (Bool-cases (not a)) [
  | inl e ↦ rw e (refused o mode_mismatch (Kept-refl o))
  | inr e ↦ rw e (elim (Bool-cases (ltb max_payload_size_bytes (length payload))) [
    | inl f ↦ rw f (refused o payload_too_large (Kept-refl o))
    | inr f ↦ rw f (elim (Bool-cases (not o.run_thread_active)) [
      | inl g ↦ rw g (refused o worker_exited (Kept-refl o))
      | inr g ↦ rw g (finish-CallEffect s payload o (make_room o) (make_room-Room o))
    ])
  ])
]
