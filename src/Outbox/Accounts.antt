-- ===== src/Outbox/Accounts.antt =====
-- The accounts of the asynchronous queue: every message that was accepted is outstanding or was
-- completed once, at most 64 are outstanding, and they are published in the order of acceptance.
use drive_bus.Prelude.{
  ℕ, suc, ◌+◌, ◌≤◌, ◌≡◌, List, [], ◌∷◌, ◌++◌, Bool, ltb, ◌==◌, if◌then◌else◌, arith, subst, ap, ◌∙◌,
  append_assoc,
}
use drive_bus.Outbox.{
  Outbox, PublishCompletion, published, overwritten, worker_stopped, worker_failed, PublishResult,
  queued_message_count, publish, max_outstanding_messages,
}
use drive_bus.Outbox.Enqueue.{
  tickets, CallEffect, refused, appended, replaced, Kept, publish-CallEffect,
}

abbrev pub count_ticket : ℕ → List ℕ → ℕ
count_ticket t [] = 0
count_ticket t (x ∷ xs) = (if x == t then 1 else 0) + count_ticket t xs

pub count_ticket-append :
    (t : ℕ) (xs ys : List ℕ) → count_ticket t (xs ++ ys) ≡ count_ticket t xs + count_ticket t ys
count_ticket-append t [] ys = omega arith
count_ticket-append t (x ∷ xs) ys = omega (arith, count_ticket-append t xs ys)

abbrev pub completed : List (ℕ × PublishCompletion) → List ℕ
completed [] = []
completed ((t, c) ∷ log) = t ∷ completed log

-- One more than the ticket that was published last.
abbrev pub after_published : List (ℕ × PublishCompletion) → ℕ
after_published [] = 0
after_published ((t, c) ∷ log) = elim c [ published ↦ suc t | _ ↦ after_published log ]

-- Each ticket was published after all smaller ones that were published.
abbrev pub InOrder : List (ℕ × PublishCompletion) → Type 0
InOrder [] = Unit {0}
InOrder ((t, published) ∷ log) = (after_published log ≤ t) × InOrder log
InOrder ((t, overwritten) ∷ log) = InOrder log
InOrder ((t, worker_stopped) ∷ log) = InOrder log
InOrder ((t, worker_failed) ∷ log) = InOrder log

-- A rising list between two bounds.
abbrev pub Rising : ℕ → ℕ → List ℕ → Type 0
Rising lo hi [] = lo ≤ hi
Rising lo hi (x ∷ xs) = (lo ≤ x) × Rising (suc x) hi xs

Rising-snoc : (lo hi : ℕ) (xs : List ℕ) → Rising lo hi xs → Rising lo (hi + 1) (xs ++ hi ∷ [])
Rising-snoc lo hi [] r = (r, omega arith)
Rising-snoc lo hi (x ∷ xs) r = (r.0, Rising-snoc (suc x) hi xs r.1)

Rising-lower : (k lo hi : ℕ) (xs : List ℕ) → k ≤ lo → Rising lo hi xs → Rising k hi xs
Rising-lower k lo hi [] h r = omega arith
Rising-lower k lo hi (x ∷ xs) h r = (omega arith, r.1)

Rising-drop : (lo hi y : ℕ) (xs ys : List ℕ) → Rising lo hi (xs ++ y ∷ ys) → Rising lo hi (xs ++ ys)
Rising-drop lo hi y [] ys r = Rising-lower lo (suc y) hi ys (omega arith) r.1
Rising-drop lo hi y (x ∷ xs) ys r = (r.0, Rising-drop (suc x) hi y xs ys r.1)

pub record Accounted (o : Outbox) : Type 0 where
  pub bounded : queued_message_count o ≤ max_outstanding_messages
  pub once :
      (t : ℕ)
      → count_ticket t (tickets o) + count_ticket t (completed o.completions)
        ≡ (if ltb t o.next_ticket then 1 else 0)
  pub fifo : Rising (after_published o.completions) o.next_ticket (tickets o)
  pub in_order : InOrder o.completions

-- What leaves tickets and completions alone keeps the accounts.
pub Kept-Accounted : (o o' : Outbox) → Kept o o' → Accounted o → Accounted o'
Kept-Accounted o o' k a = record {
  bounded = omega arith;
  once = λ t. rw (k.same_tickets, k.same_completions, k.same_next) (a.once t);
  fifo = rw (k.same_tickets, k.same_completions, k.same_next) a.fifo;
  in_order = rw k.same_completions a.in_order;
}

effect-Accounted :
    (o : Outbox) (r : Outbox × PublishResult) → Accounted o → CallEffect o r → Accounted r.0
effect-Accounted o _ a (refused o' e k) = Kept-Accounted o o' k a
effect-Accounted o _ a (appended o' id i few n t nx d) = record {
  bounded = omega arith;
  once = λ k.
      rw (t, d, nx, count_ticket-append k (tickets o) (o.next_ticket ∷ []))
        (ground (arith, a.once k));
  fifo = rw (t, d, nx) (Rising-snoc _ o.next_ticket (tickets o) a.fifo);
  in_order = rw d a.in_order;
}
effect-Accounted o _ a (replaced o' id front back old i many n t small t' nx d) = record {
  bounded = omega arith;
  once = λ k.
      rw
        (
          t',
          d,
          nx,
          count_ticket-append k front (back ++ o.next_ticket ∷ []),
          count_ticket-append k back (o.next_ticket ∷ []),
        )
        (ground (arith, a.once k, before k));
  fifo =
      rw (t', d, nx)
        (rw (← append_assoc front back (o.next_ticket ∷ [])) (
          Rising-snoc _ o.next_ticket (front ++ back) (
            Rising-drop _ o.next_ticket old front back (subst (Rising _ o.next_ticket) t a.fifo))));
  in_order = rw d a.in_order;
}
  where
    before :
        (k : ℕ) → count_ticket k (tickets o) ≡ count_ticket k front + count_ticket k (old ∷ back)
    before k = ap (count_ticket k) t ∙ count_ticket-append k front (old ∷ back)

-- A call of `publish(payload)` keeps the accounts on every branch: every accepted message is
-- outstanding or completed once, at most 64 are outstanding, and the outstanding ones stand in the
-- order of acceptance, behind the published ones.
pub publish-Accounted :
    (asynchronous signalled : Bool) (o : Outbox) (payload : List ℕ)
    → Accounted o
    → Accounted (publish asynchronous signalled o payload).0
publish-Accounted s y o payload a =
    effect-Accounted o (publish s y o payload) a (publish-CallEffect s y o payload)
