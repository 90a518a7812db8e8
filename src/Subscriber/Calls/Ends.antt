-- ===== src/Subscriber/Calls/Ends.antt =====
-- How `Subscriber::subscribe` of src/subscriber.cpp ends.
use drive_bus.Prelude.{
  ℕ, ◌+◌, ◌≤◌, ◌<◌, List, [], ◌∷◌, ◌++◌, Option, none, some, find, Bool, Bool-cases, true, false,
  inl, inr, ◌≡◌, ◌==◌, arith,
}
use drive_bus.Layout.{descriptor_slot_count}
use drive_bus.Subscriber.Events.{EventResult, failed, reading}
use drive_bus.Subscriber.Rounds.{Calms, Answers, handle_data_available_event-Answers}
use drive_bus.Subscriber.{
  ReadResult, read_batch, read_error, returned, SubscribeError, timeout, event_wait_failed,
  broker_unavailable, map_run_error_to_subscribe_error,
}
use drive_bus.Subscriber.Control.{Subscriber, process_broker_control_messages}
use drive_bus.Subscriber.Calls.{
  Reader, Handled, messages, broken, stuck, Wait, arrived, timed_out, interrupted, wait_failed,
  Turn, SubscribeResult, batch, error, waiting, no_fuel, NextTurn, handled, after_reading,
  handle_attachment_event, after_wait, after_broker, after_event, take_event, turn, subscribe,
  broker_event_id,
}

-- The write index of every mapping is in the ring.
abbrev pub Ready : Reader → Type 0
Ready r = (fd : ℕ) → (r.mapping fd).descriptor_write_index < descriptor_slot_count

-- In a turn other processes leave the write index from some round on, and the fuel is enough for the
-- rounds until then.
abbrev pub Enough : Turn → Type 0
Enough t = (m : ℕ) × Calms m t.surroundings × (m + 2 ≤ t.fuel)

abbrev pub AllEnough : List Turn → Type 0
AllEnough [] = Unit {0}
AllEnough (t ∷ ts) = Enough t × AllEnough ts

-- What a call gives: not an empty batch, not a wait beyond its turns, and not a reading that goes on.
abbrev Ended : SubscribeResult → Type 0
Ended r =
    ((s : Reader) (es : List ℕ) → ¬ (r ≡ waiting s es))
    × ((s : Reader) (es : List ℕ) → ¬ (r ≡ batch s es []))
    × (¬ (r ≡ no_fuel))

abbrev EndsWith : NextTurn → Type 0
EndsWith next = (r : Reader) (es : List ℕ) → Ready r → Ended (next r es)

error-Ended : (r : Reader) (es : List ℕ) (e : SubscribeError) → Ended (error r es e)
error-Ended r es e =
    (λ s es' h. absurd (ground arith), λ s es' h. absurd (ground arith), λ h. absurd (ground arith))

after_wait-Ended :
    (w : Wait) (r : Reader) (next : NextTurn)
    → EndsWith next
    → Ready r
    → Ended (after_wait w r next)
unfolding after_wait
after_wait-Ended (arrived []) r next h ready = error-Ended r [] timeout
after_wait-Ended (arrived (e ∷ es)) r next h ready = h r (e ∷ es) ready
after_wait-Ended timed_out r next h ready = error-Ended r [] timeout
after_wait-Ended interrupted r next h ready = h r [] ready
after_wait-Ended wait_failed r next h ready = error-Ended r [] event_wait_failed

after_broker-Ended :
    (r : Reader) (es : List ℕ) (q : Subscriber × Bool) (next : NextTurn)
    → EndsWith next
    → Ready r
    → Ended (after_broker r es q next)
unfolding after_broker
after_broker-Ended r es (u, true) next h ready = h (record r { tables = u }) es ready
after_broker-Ended r es (u, false) next h ready =
    error-Ended (record r { tables = u }) es broker_unavailable

-- A handler that has ended, with the write indices still in the ring if it has not failed.
abbrev Settled : Handled → Type 0
Settled (messages r ms) = Ready r
Settled (broken r e) = Unit {0}
Settled stuck = ⊥

handled-Settled : (r : Reader) (q : ReadResult) → Ready r → Settled (handled r q)
unfolding handled
handled-Settled r (read_batch ms) ready = ready
handled-Settled r (read_error e) ready = tt

after_reading-Settled :
    (synchronous : Bool) (r : Reader) (fd : ℕ) (o : Option EventResult)
    → Ready r
    → ((x : EventResult) × (o ≡ some x) × Answers x)
    → Settled (after_reading synchronous r fd o)
unfolding after_reading
after_reading-Settled synchronous r fd o ready (failed e, done, low) = rw done tt
after_reading-Settled synchronous r fd o ready (reading q, done, low) = rw done (
    handled-Settled _ (returned synchronous q)
      (λ k. elim (Bool-cases (fd == k)) [ inl e ↦ rw e low | inr e ↦ rw e (ready k) ]))

handle_attachment_event-Settled :
    (synchronous : Bool) (t : Turn) (r : Reader) (fd : Option ℕ)
    → Enough t
    → Ready r
    → Settled (handle_attachment_event synchronous t.surroundings t.fuel r fd)
unfolding handle_attachment_event
handle_attachment_event-Settled synchronous t r none (m, calm, few) ready = ready
handle_attachment_event-Settled synchronous t r (some fd) (m, calm, few) ready =
    after_reading-Settled synchronous r fd _ ready (
      handle_data_available_event-Answers m t.surroundings t.fuel
        (find fd r.tables.attachment_by_event_fd) (r.mapping fd) calm few (ready fd))

after_event-Ended :
    (es : List ℕ) (q : Handled) (next : NextTurn)
    → EndsWith next
    → Settled q
    → Ended (after_event es q next)
unfolding after_event
after_event-Ended es stuck next h never = absurd never
after_event-Ended es (broken r x) next h ok = error-Ended r es (map_run_error_to_subscribe_error x)
after_event-Ended es (messages r []) next h ok = h r es ok
after_event-Ended es (messages r (m ∷ ms)) next h ok =
    (λ s es' e. absurd (ground arith), λ s es' e. absurd (ground arith), λ e. absurd (ground arith))

take_event-Ended :
    (t : Turn) (id : ℕ) (es : List ℕ) (r : Reader) (next : NextTurn)
    → EndsWith next
    → Enough t
    → Ready r
    → Ended (take_event t id es r next)
unfolding take_event
take_event-Ended t id es r next h few ready = elim (Bool-cases (id == broker_event_id)) [
  | inl e ↦ rw e (
      after_broker-Ended r es (process_broker_control_messages t.answers 0 t.records r.tables) next
        h ready)
  | inr e ↦ rw e (
      after_event-Ended es _ next h (
        handle_attachment_event-Settled true t r (find id r.tables.event_fd_by_attachment_id) few
          ready))
]

turn-Ended :
    (t : Turn) (r : Reader) (es : List ℕ) (next : NextTurn)
    → EndsWith next
    → Enough t
    → Ready r
    → Ended (turn t r es next)
unfolding turn
turn-Ended t r [] next h few ready = elim (Bool-cases t.late) [
  | inl e ↦ rw e (error-Ended r [] timeout)
  | inr e ↦ elim (Bool-cases t.late_before_wait) [
    | inl f ↦ rw (e, f) (error-Ended r [] timeout)
    | inr f ↦ rw (e, f) (after_wait-Ended t.wait r next h ready)
  ]
]
turn-Ended t r (id ∷ es) next h few ready = elim (Bool-cases t.late) [
  | inl e ↦ rw e (error-Ended r (id ∷ es) timeout)
  | inr e ↦ simp e (take_event-Ended t id es r next h few ready)
]

late_turn-Ended : (t : Turn) (next : NextTurn) → t.late ≡ true → EndsWith (λ r es. turn t r es next)
unfolding turn
late_turn-Ended t next late r [] ready = rw late (error-Ended r [] timeout)
late_turn-Ended t next late r (id ∷ es) ready = rw late (error-Ended r (id ∷ es) timeout)

subscribe-Ended :
    (ts us : List Turn) (t : Turn)
    → AllEnough ts
    → t.late ≡ true
    → EndsWith (subscribe (ts ++ t ∷ us))
unfolding subscribe
subscribe-Ended [] us t few late r es ready = late_turn-Ended t (subscribe us) late r es ready
subscribe-Ended (x ∷ ts) us t (few, fews) late r es ready =
    turn-Ended x r es (subscribe (ts ++ t ∷ us)) (subscribe-Ended ts us t fews late) few ready

-- A call of `subscribe` ends at the latest with the first iteration that finds the deadline passed, if
-- the write indices of the mappings are in the ring, and in every iteration before that one other
-- processes keep them there and leave them from some round of the reading on, with fuel for the rounds
-- until then and two more: the call does not wait on beyond that iteration, and no reading in it goes
-- on; and whenever it ends with a batch, that is not empty.
pub subscribe-ends :
    (ts us : List Turn) (t : Turn) (r s : Reader) (es es' : List ℕ)
    → Ready r
    → AllEnough ts
    → t.late ≡ true
    → (¬ (subscribe (ts ++ t ∷ us) r es ≡ waiting s es'))
      × (¬ (subscribe (ts ++ t ∷ us) r es ≡ batch s es' []))
      × (¬ (subscribe (ts ++ t ∷ us) r es ≡ no_fuel))
subscribe-ends ts us t r s es es' ready few late =
    let (on, empty, going) = subscribe-Ended ts us t few late r es ready in
    (on s es', empty s es', going)
