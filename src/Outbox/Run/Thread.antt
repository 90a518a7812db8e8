-- ===== src/Outbox/Run/Thread.antt =====
-- How the thread of the worker of src/publisher.cpp ends, `start_run_thread`.
use drive_bus.Prelude.{
  ℕ, List, [], ◌∷◌, Option, none, some, Bool, true, false, Bool-cases, inl, inr, ◌≡◌, refl, ltb,
  sym, subst, ap, if◌then◌else◌, ◌∙◌, length,
}
use drive_bus.Publisher.{Publisher, RunError, worker_exception}
use drive_bus.Outbox.{
  Outbox, PublishCompletion, worker_stopped, worker_failed, publish, complete_outstanding_messages,
  max_payload_size_bytes,
}
use drive_bus.Outbox.Accounts.{Accounted, completed, count_ticket}
use drive_bus.Outbox.Worker.{Call, run_calls}
use drive_bus.Outbox.Shutdown.{complete_outstanding_messages-once}
use drive_bus.Outbox.Run.{
  Wait, RunResult, finished, waiting, undefined, run, WorkerStopIntent, destroy, transfer,
  exit_worker, RunEnd, returned, thrown, WorkerResult, exited, run_thread,
}
use drive_bus.Outbox.Run.Exit.{Kept, run_loop-Kept}

-- When the worker is not active, calls are refused and change nothing.
refused :
    (signalled : Bool) (o : Outbox) (payload : List ℕ)
    → o.run_thread_active ≡ false
    → (publish true signalled o payload).0 ≡ o
unfolding publish
refused signalled o payload off = elim (Bool-cases (ltb max_payload_size_bytes (length payload))) [
  | inl e ↦ rw e refl
  | inr e ↦ simp (e, off) refl
]

refused_calls :
    (calls : List Call) (o : Outbox) → o.run_thread_active ≡ false → run_calls calls o ≡ o
unfolding run_calls
refused_calls [] o off = refl
refused_calls (c ∷ cs) o off =
    let e = refused c.signalled o c.payload off in
    ap (λ x. run_calls cs x) e ∙ refused_calls cs o off

-- Every accepted message is completed once.
abbrev pub AllCompleted : Outbox → ℕ → Type 0
AllCompleted o t = count_ticket t (completed o.completions) ≡ (if ltb t o.next_ticket then 1 else 0)

-- What becomes of the messages: a worker that hands over to another one keeps those that are
-- outstanding, unless it has failed.
abbrev pub Concluded : WorkerStopIntent → Option RunError → Outbox → ℕ → Type 0
Concluded intent (some e) o t = AllCompleted o t
Concluded destroy none o t = AllCompleted o t
Concluded transfer none o t = Accounted o

abbrev Settled : WorkerStopIntent → WorkerResult → ℕ → Type 0
Settled intent (exited o reason) t = Concluded intent reason o t × (o.run_thread_active ≡ false)
Settled intent _ t = Unit {0}

-- How the run of a worker over the given waits can end: as it returns, or in an exception at a moment
-- when the accounts hold.
abbrev pub EndOf : List Wait → Publisher → Outbox → RunEnd → Type 0
EndOf ws p o (returned r) = r ≡ run ws p o
EndOf ws p o (thrown m) = Accounted m

completed-AllCompleted :
    (c : PublishCompletion) (calls : List Call) (o : Outbox) (t : ℕ)
    → Accounted o
    → o.run_thread_active ≡ false
    → AllCompleted (complete_outstanding_messages c (run_calls calls o)) t
      × ((complete_outstanding_messages c (run_calls calls o)).run_thread_active ≡ false)
unfolding complete_outstanding_messages
completed-AllCompleted c calls o t a off =
    subst
      (λ x.
        AllCompleted (complete_outstanding_messages c x) t
        × ((complete_outstanding_messages c x).run_thread_active ≡ false))
      (sym (refused_calls calls o off)) (complete_outstanding_messages-once c o t a, off)

exit_worker-Settled :
    (intent : WorkerStopIntent) (calls : List Call) (o : Outbox) (reason : Option RunError) (t : ℕ)
    → Accounted o
    → o.run_thread_active ≡ false
    → Settled intent (exited (exit_worker intent calls o reason) reason) t
unfolding exit_worker
exit_worker-Settled intent calls o (some e) t a off =
    completed-AllCompleted worker_failed calls o t a off
exit_worker-Settled destroy calls o none t a off =
    completed-AllCompleted worker_stopped calls o t a off
exit_worker-Settled transfer calls o none t a off =
    subst (λ x. Accounted x × (x.run_thread_active ≡ false)) (sym (refused_calls calls o off))
      (a, off)

returned-Settled :
    (intent : WorkerStopIntent) (calls : List Call) (r : RunResult) (t : ℕ)
    → Kept r
    → Settled intent (run_thread intent calls (returned r)) t
unfolding run_thread
returned-Settled intent calls (finished p o reason) t (a, off) =
    exit_worker-Settled intent calls o reason t a off
returned-Settled intent calls (waiting p o) t k = tt
returned-Settled intent calls undefined t k = tt

run_thread-Settled :
    (intent : WorkerStopIntent) (ws : List Wait) (calls : List Call) (p : Publisher) (o : Outbox)
    (end : RunEnd) (t : ℕ)
    → Accounted o
    → EndOf ws p o end
    → Settled intent (run_thread intent calls end) t
unfolding run_thread run
run_thread-Settled intent ws calls p o (returned r) t a e =
    returned-Settled intent calls r t (subst Kept (sym e) (run_loop-Kept ws p o true a))
run_thread-Settled intent ws calls p o (thrown m) t a h =
    exit_worker-Settled intent calls (record m { run_thread_active = false })
      (some worker_exception) t
      (record { bounded = h.bounded; once = h.once; fifo = h.fifo; in_order = h.in_order }) refl

-- When the accounts of the outbox hold as the thread of a publisher starts: whatever it is stopped for,
-- and whatever other threads and processes do meanwhile, once `run` has returned, or has thrown an
-- exception at a moment when the accounts hold, and the thread has set its promise, the worker is not
-- active, so that later calls are refused. If it has failed, by an error or an exception, or is not to
-- hand over to another worker, every message that was accepted has been completed, exactly once. If it
-- hands over, every accepted message is outstanding or completed, exactly once, those outstanding in
-- the order of acceptance.
pub run_thread-once :
    (intent : WorkerStopIntent) (ws : List Wait) (calls : List Call) (p : Publisher) (o o' : Outbox)
    (end : RunEnd) (reason : Option RunError) (t : ℕ)
    → Accounted o
    → EndOf ws p o end
    → run_thread intent calls end ≡ exited o' reason
    → Concluded intent reason o' t × (o'.run_thread_active ≡ false)
run_thread-once intent ws calls p o o' end reason t a h e =
    subst (λ r. Settled intent r t) e (run_thread-Settled intent ws calls p o end t a h)
