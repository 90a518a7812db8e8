-- ===== src/System/Broadcast.antt =====
-- Every subscriber is given what is published, in order, without loss or repetition.
use drive_bus.Prelude.{
  ℕ, ◌+◌, ◌^◌, ◌≤◌, ◌<◌, ◌≡◌, ◌≢◌, inl, inr, List, [], ◌∷◌, ◌++◌, append_assoc, append-nil, Option,
  none, some, Bool, true, false, ◌==◌, ==_iff, ==_refl, refl, sym, subst, length, arith, map,
  update, ◌∙◌, ap, ℕ_discrete,
}
use drive_bus.Layout.{MessageDescriptor}
use drive_bus.Mask.{test_bit}
use drive_bus.FreeList.{set_in_use, take_chunk}
use drive_bus.Ring.Pending.{pending}
use drive_bus.Publisher.{Publisher}
use drive_bus.Publisher.Publish.{
  PublishOutcome, try_publish_one, fill_chunk, publish_descriptor, reference_mask, signal_all,
}
use drive_bus.Subscriber.{Reading}
use drive_bus.Subscriber.Events.{reading}
use drive_bus.Sound.{Sound}
use drive_bus.Sound.Attempt.{try_publish_one-Sound}
use drive_bus.Delivery.{message_at, queue, AllReady}
use drive_bus.Delivery.Frame.{AllKeeping, every_chunk, AllReady-frame, messages-frame}
use drive_bus.Delivery.Append.{seq_after}
use drive_bus.Delivery.Attempt.{Published, try_publish_one-EitherEnd}
use drive_bus.Delivery.Publish.{Served, published-queue, published-Served}
use drive_bus.Delivery.Event.{Quiet}
use drive_bus.Delivery.Drain.{Attached, Drained, handle_data_available_event-Drained}
use drive_bus.System.{
  System, Action, publish, event, answered, alone, after_publish, after_event, perform, perform_all,
}

signal_all-answered : (fds : List ℕ) → signal_all answered fds ≡ true
unfolding signal_all
signal_all-answered [] = refl
signal_all-answered (fd ∷ fds) = signal_all-answered fds

alone-Quiet : Quiet alone
alone-Quiet = record { drained = refl; answered = λ round i. refl; alone = λ round s. refl }

-- The publisher serves the subscriber of a slot, which is attached, and has been given all that was
-- published except what waits.
pub record Link (y : System) (slot : ℕ) : Type 0 where
  pub first : ℕ
  pub served : Served y.publisher slot first
  pub attached : Attached y.publisher.shared_data slot first (y.attachment slot)
  pub account : y.delivered slot ++ queue y.publisher.shared_data slot ≡ y.published

-- The mapping is well-formed, the publisher's tables give `mask` for its subscribers, and the
-- subscriber of each slot of `slots` is served.
pub record Linked (mask : ℕ) (slots : ℕ → Bool) (y : System) : Type 0 where
  pub sound : Sound y.publisher.shared_data
  pub tables :
      reference_mask y.publisher.data_available_event_fds y.publisher.slot_by_event_fd 0 ≡ some mask
  pub small_seq : y.publisher.seq < 2 ^ 32
  pub small_mask : mask < 2 ^ 32
  pub links : (k : ℕ) → slots k ≡ true → Link y k
  pub bits : (k : ℕ) → slots k ≡ true → test_bit mask k ≡ true
  pub low : (k : ℕ) → slots k ≡ true → k < 16

-- An action of a payload that fits, or of a slot in use.
abbrev pub Allowed : (ℕ → Bool) → Action → Type 0
Allowed slots (publish payload) = length payload + 8 ≤ 1024
Allowed slots (event slot) = slots slot ≡ true

-- The action succeeds.
abbrev Continues : ℕ → (ℕ → Bool) → Option System → Type 0
Continues mask slots r = (z : System) × (r ≡ some z) × Linked mask slots z

module _ (mask : ℕ) (slots : ℕ → Bool) (y : System) (l : Linked mask slots y)
    (payload : List ℕ) where
  abbrev tried : Publisher × PublishOutcome
  tried = try_publish_one answered y.publisher payload

  abbrev sent : System
  sent = record y { publisher = tried.0; published = y.published ++ payload ∷ [] }

  sent-Link : Published y.publisher payload mask tried → (k : ℕ) → slots k ≡ true → Link sent k
  unfolding publish_descriptor fill_chunk take_chunk set_in_use
  sent-Link b k on =
      let link = l.links k on in
      let served =
        published-Served y.publisher payload mask k link.first tried b l.sound l.small_mask
          (l.bits k on) (l.low k on) l.small_seq link.served in
      record {
        first = link.first;
        served = served;
        attached = record {
          at_slot = link.attached.at_slot;
          low = link.attached.low;
          active = served.active;
          place = rw b.result link.attached.place;
          expecting = link.attached.expecting;
        };
        account =
            ap (λ (q : List (List ℕ)). y.delivered k ++ q)
              (published-queue y.publisher payload mask k link.first tried b l.sound l.small_mask
                (l.bits k on) (l.low k on) l.small_seq link.served)
            ∙ (sym (append_assoc (y.delivered k) (queue y.publisher.shared_data k) (payload ∷ []))
                ∙ ap (λ (q : List (List ℕ)). q ++ payload ∷ []) link.account);
      }

  sent-Linked : Published y.publisher payload mask tried → Linked mask slots sent
  sent-Linked b = record {
    sound = try_publish_one-Sound answered y.publisher payload l.sound;
    tables = rw b.result l.tables;
    small_seq = rw b.result (omega arith);
    small_mask = l.small_mask;
    links = sent-Link b;
    bits = l.bits;
    low = l.low;
  }

  publish-Continues : length payload + 8 ≤ 1024 → Continues mask slots (perform (publish payload) y)
  unfolding perform after_publish
  publish-Continues few =
      elim (try_publish_one-EitherEnd answered y.publisher payload mask l.sound few l.tables
        (signal_all-answered y.publisher.data_available_event_fds)) [
          | inl e ↦ (y, rw e refl, l)
          | inr b ↦ (sent, rw b.result refl, sent-Linked b)
        ]

-- The system after a reading without an error.
abbrev after_reading : System → ℕ → Reading → System
after_reading y slot r = record y {
  publisher = record y.publisher { shared_data = r.shared };
  attachment = update y.attachment slot r.attachment;
  delivered = update y.delivered slot (y.delivered slot ++ r.taken);
}

after_event-done :
    (y : System) (slot : ℕ) (r : Reading)
    → r.error ≡ none
    → after_event y slot (some (reading r)) ≡ some (after_reading y slot r)
unfolding after_event
after_event-done y slot r e =
    subst
      (λ x.
        after_event y slot (some (reading (record r { error = x })))
        ≡ some (after_reading y slot r))
      (sym e) refl

-- An event of a slot.
module _ (mask : ℕ) (slots : ℕ → Bool) (y : System) (l : Linked mask slots y) (slot : ℕ)
    (on : slots slot ≡ true) (r : Reading)
    (d : Drained y.publisher.shared_data slot (Link.first (l.links slot on)) r) where
  abbrev read : System
  read = after_reading y slot r

  own-Link : Link read slot
  own-Link =
      let link = l.links slot on in
      record {
        first = seq_after (length (queue y.publisher.shared_data slot)) link.first;
        served = record {
          active = d.attached.active;
          waiting = d.waiting;
          next = rw d.empty link.served.next;
        };
        attached = rw (==_refl slot) d.attached;
        account =
            rw
              (
                ==_refl slot,
                d.empty,
                d.delivered,
                append-nil (y.delivered slot ++ queue y.publisher.shared_data slot),
              )
              link.account;
      }

  module _ (k : ℕ) (on' : slots k ≡ true) (ne : slot ≢ k) where
    abbrev link : Link y k
    link = l.links k on'

    abbrev waits : List MessageDescriptor
    waits =
        pending y.publisher.shared_data.desc_ring
          (y.publisher.shared_data.descriptor_read_indices k)
          y.publisher.shared_data.descriptor_write_index

    same_pending :
        pending r.shared.desc_ring
          (r.shared.descriptor_read_indices k)
          r.shared.descriptor_write_index
        ≡ waits
    same_pending = rw (d.same_ring, d.same_write, d.other_reads k ne) refl

    kept : AllKeeping y.publisher.shared_data r.shared k waits
    kept = every_chunk y.publisher.shared_data r.shared k waits (λ q. d.others k q ne)

    same_queue : queue r.shared k ≡ queue y.publisher.shared_data k
    same_queue =
        ap (map (message_at r.shared.pool)) same_pending
        ∙ messages-frame y.publisher.shared_data r.shared k link.first waits kept
            link.served.waiting

    other-Link : Link read k
    other-Link =
        let apart : (slot == k) ≡ false = ground (arith, ==_iff slot k) in
        record {
          first = link.first;
          served = record {
            active = rw (d.other_reads k ne) link.served.active;
            waiting = subst (AllReady r.shared k link.first) (sym same_pending) (
                AllReady-frame y.publisher.shared_data r.shared k link.first waits kept
                  link.served.waiting);
            next = rw same_queue link.served.next;
          };
          attached = rw apart (record {
            at_slot = link.attached.at_slot;
            low = link.attached.low;
            active = rw (d.other_reads k ne) link.attached.active;
            place = rw (d.other_reads k ne) link.attached.place;
            expecting = link.attached.expecting;
          });
          account = rw (apart, same_queue) link.account;
        }

  read-Linked : Linked mask slots read
  read-Linked = record {
    sound = d.sound;
    tables = l.tables;
    small_seq = l.small_seq;
    small_mask = l.small_mask;
    links = λ k on'. elim (ℕ_discrete slot k) [
      | yes e ↦ subst (Link read) e own-Link
      | no ne ↦ other-Link k on' ne
    ];
    bits = l.bits;
    low = l.low;
  }

event-Continues :
    (mask : ℕ) (slots : ℕ → Bool) (y : System) (slot : ℕ)
    → Linked mask slots y
    → slots slot ≡ true
    → Continues mask slots (perform (event slot) y)
unfolding perform
event-Continues mask slots y slot l on =
    let link = l.links slot on in
    let (r, done, d) =
      handle_data_available_event-Drained alone 0 (y.attachment slot) y.publisher.shared_data slot
        link.first alone-Quiet l.sound link.served.waiting link.attached in
    (
      after_reading y slot r,
      rw done (after_event-done y slot r d.error),
      read-Linked mask slots y l slot on r d,
    )

perform-Continues :
    (mask : ℕ) (slots : ℕ → Bool) (a : Action) (y : System)
    → Linked mask slots y
    → Allowed slots a
    → Continues mask slots (perform a y)
perform-Continues mask slots (publish payload) y l h = publish-Continues mask slots y l payload h
perform-Continues mask slots (event slot) y l h = event-Continues mask slots y slot l h

-- Actions that are all allowed.
abbrev pub AllAllowed : (ℕ → Bool) → List Action → Type 0
AllAllowed slots [] = Unit {0}
AllAllowed slots (a ∷ rest) = Allowed slots a × AllAllowed slots rest

-- A run of allowed actions does not fail and keeps the links.
pub perform_all-Linked :
    (mask : ℕ) (slots : ℕ → Bool) (rest : List Action) (y : System)
    → Linked mask slots y
    → AllAllowed slots rest
    → (z : System) × (perform_all rest y ≡ some z) × Linked mask slots z
unfolding perform_all
perform_all-Linked mask slots [] y l h = (y, refl, l)
perform_all-Linked mask slots (a ∷ rest) y l (h, hs) =
    let (z, done, l') = perform-Continues mask slots a y l h in
    let (w, done', l'') = perform_all-Linked mask slots rest z l' hs in
    (w, rw (done, perform_all) done', l'')

-- However a publisher's attempts to publish and its subscribers' events follow one another, with payloads
-- that fit and every event write answered, no operation fails; and at the end, for every slot in use, the
-- messages that its subscriber has been given and those that still wait for it are together exactly the
-- messages that were published, in the order of publication.
pub perform_all-delivered :
    (mask : ℕ) (slots : ℕ → Bool) (rest : List Action) (y : System) (k : ℕ)
    → Linked mask slots y
    → AllAllowed slots rest
    → slots k ≡ true
    → (z : System) × (perform_all rest y ≡ some z)
      × (z.delivered k ++ queue z.publisher.shared_data k ≡ z.published)
perform_all-delivered mask slots rest y k l h on =
    let (z, done, l') = perform_all-Linked mask slots rest y l h in
    (z, done, (l'.links k on).account)
