-- ===== src/Publisher/Initial/Descriptors.antt =====
-- The descriptors that a publisher receives for its first subscribers, in src/publisher.cpp.
use native.Mathlib.Omega.{arith}
use drive_bus.Prelude.{
  ℕ, ◌+◌, ◌%◌, List, [], ◌∷◌, ◌++◌, Option, none, some, Bool-cases, Option-cases, inl, inr, ◌⊎◌,
  true, leb, ◌==◌, ==_iff, ◌≡◌, refl, ap, ◌∙◌, length, get_or, tick, count, count-append,
}
use drive_bus.Layout.{max_subscribers, invalid_index}
use drive_bus.Protocol.{
  Cmsg, Received, packet, peer_closed, recv_failed, type_byte, subscriber_event_fd_and_slot,
}
use drive_bus.Publisher.{Publisher, SubscriberRegistration, SubscriberTrackingError, find_slot}
use drive_bus.Publisher.Tracking.{track_subscriber}
use drive_bus.Publisher.Control.{received_fds}
use drive_bus.Publisher.Initial.{
  CreateError, PacketWithFd, got, nothing, no_packet, take_fd, single_fd, receive_packet_with_fd,
  Registration, registered, refused, check_registration, receive_subscriber_registration,
  close_initial_subscriber_event_fds, error_of_tracking, after_track, after_receive, track_initial,
}

-- How often a descriptor was closed or is one of a tracked subscriber.
abbrev pub accounted : Publisher → ℕ → ℕ
accounted p d = count d p.closed + count d p.data_available_event_fds

-- The descriptors that a registration still holds.
abbrev held_fd : Registration → ℕ → ℕ
held_fd (registered r) d = tick (r.data_available_event_fd == d)
held_fd (refused e) d = 0

-- The descriptors that a received record holds.
abbrev packet_fds : PacketWithFd → List ℕ
packet_fds (got bytes fd fds) = fd ∷ fds
packet_fds nothing = []
packet_fds (no_packet fds) = fds

track_subscriber-accounted :
    (p : Publisher) (r : SubscriberRegistration) (d : ℕ)
    → accounted (track_subscriber p r).0 d ≡ accounted p d + tick (r.data_available_event_fd == d)
unfolding track_subscriber count
track_subscriber-accounted p r d = elim (Bool-cases (leb max_subscribers r.slot_index)) [
  | inl e ↦ rw e (omega arith)
  | inr e ↦
      elim (Bool-cases (p.shared_data.descriptor_read_indices r.slot_index == invalid_index)) [
        | inr f ↦ rw (e, f) (omega arith)
        | inl f ↦ elim (Option-cases (find_slot p.slot_by_event_fd r.data_available_event_fd)) [
          | inr (found, g) ↦ rw (e, f, g) (omega arith)
          | inl g ↦
              rw (e, f, g)
                (omega (
                  arith,
                  count-append d p.data_available_event_fds (r.data_available_event_fd ∷ []),
                ))
        ]
      ]
]

receive-accounted :
    (p : Publisher) (k : PacketWithFd) (d : ℕ)
    → accounted (receive_subscriber_registration p k).0 d
        + held_fd (receive_subscriber_registration p k).1 d
      ≡ accounted p d + count d (packet_fds k)
unfolding receive_subscriber_registration check_registration count
receive-accounted p (no_packet fds) d = ground (arith, count-append d fds p.closed)
receive-accounted p nothing d = omega arith
receive-accounted p (got bytes fd fds) d = elim (Bool-cases (length bytes == 5)) [
  | inr e ↦ rw e (omega (arith, count-append d fds p.closed))
  | inl e ↦ elim (Bool-cases (get_or bytes 0 0 == type_byte subscriber_event_fd_and_slot)) [
    | inr f ↦ rw (e, f) (omega (arith, count-append d fds p.closed))
    | inl f ↦ rw (e, f) (omega (arith, count-append d fds p.closed))
  ]
]

-- The descriptors of a record.
abbrev pub record_fds : Received → List ℕ
record_fds (packet k) = received_fds k.cmsg
record_fds peer_closed = []
record_fds recv_failed = []

take_fd-count :
    (bytes fds : List ℕ) (d : ℕ) → count d (packet_fds (take_fd bytes fds)) ≡ count d fds
unfolding take_fd
take_fd-count bytes [] d = refl
take_fd-count bytes (fd ∷ fds) d = refl

single_fd-count :
    (bytes : List ℕ) (c : Option Cmsg) (d : ℕ)
    → count d (packet_fds (single_fd bytes c)) ≡ count d (received_fds c)
unfolding single_fd received_fds
single_fd-count bytes none d = refl
single_fd-count bytes (some c) d = elim (Bool-cases c.is_rights) [
  | inr e ↦ rw e refl
  | inl e ↦ elim (Bool-cases (c.fd_data_size == 4)) [
    | inr f ↦ rw (e, f) refl
    | inl f ↦
        let g : (c.fd_data_size % 4 == 0) ≡ true =
          ground (arith, ==_iff c.fd_data_size 4, ==_iff (c.fd_data_size % 4) 0) in
        rw (e, f, g) (take_fd-count bytes c.fds d)
  ]
]

record-count :
    (r : Received) (d : ℕ)
    → count d (packet_fds (receive_packet_with_fd r)) ≡ count d (record_fds r)
unfolding receive_packet_with_fd
record-count recv_failed d = refl
record-count peer_closed d = refl
record-count (packet k) d = elim (Bool-cases k.truncated) [
  | inl e ↦ rw e refl
  | inr e ↦ rw e (single_fd-count k.bytes k.cmsg d)
]

-- All the descriptors of records.
abbrev pub all_fds : List Received → List ℕ
all_fds [] = []
all_fds (r ∷ rs) = record_fds r ++ all_fds rs

-- Of the records, those that were read are a part in front; their descriptors are accounted for, and
-- all of them are closed after an error.
pub record Accounts (p : Publisher) (rs : List Received) (q : Publisher × Option CreateError)
    : Type 0 where
  pub used : List Received
  pub left : List Received
  pub parts : rs ≡ used ++ left
  pub kept : (d : ℕ) → accounted q.0 d ≡ accounted p d + count d (all_fds used)
  pub ended : ((q.1 ≡ none) × (left ≡ [])) ⊎ (q.0.data_available_event_fds ≡ [])

-- One record, then the others.
Accounts-cons :
    (p p' : Publisher) (r : Received) (rs : List Received) (q : Publisher × Option CreateError)
    → ((d : ℕ) → accounted p' d ≡ accounted p d + count d (record_fds r))
    → Accounts p' rs q
    → Accounts p (r ∷ rs) q
Accounts-cons p p' r rs q h a = record {
  used = r ∷ a.used;
  left = a.left;
  parts = ap (λ (l : List Received). r ∷ l) a.parts;
  kept = λ d. omega (arith, a.kept d, h d, count-append d (record_fds r) (all_fds a.used));
  ended = a.ended;
}

-- An error after one record: the tracked descriptors are closed.
Accounts-error :
    (p p' : Publisher) (r : Received) (rs : List Received) (e : CreateError)
    → ((d : ℕ) → accounted p' d ≡ accounted p d + count d (record_fds r))
    → Accounts p (r ∷ rs) (close_initial_subscriber_event_fds p', some e)
unfolding close_initial_subscriber_event_fds count
Accounts-error p p' r rs e h = record {
  used = r ∷ [];
  left = rs;
  parts = refl;
  kept = λ d. omega (
    arith,
    h d,
    count-append d p'.data_available_event_fds p'.closed,
    count-append d (record_fds r) [],
  );
  ended = inr refl;
}

after_track-Accounts :
    (p : Publisher) (r : Received) (rs : List Received)
    (t : Publisher × Option SubscriberTrackingError)
    (next : Publisher → Publisher × Option CreateError)
    → ((d : ℕ) → accounted t.0 d ≡ accounted p d + count d (record_fds r))
    → ((p' : Publisher) → Accounts p' rs (next p'))
    → Accounts p (r ∷ rs) (after_track t next)
unfolding after_track
after_track-Accounts p r rs (p', none) next h rest = Accounts-cons p p' r rs (next p') h (rest p')
after_track-Accounts p r rs (p', some e) next h rest =
    Accounts-error p p' r rs (error_of_tracking e) h

after_receive-Accounts :
    (p : Publisher) (r : Received) (rs : List Received) (q : Publisher × Registration)
    (next : Publisher → Publisher × Option CreateError)
    → ((d : ℕ) → accounted q.0 d + held_fd q.1 d ≡ accounted p d + count d (record_fds r))
    → ((p' : Publisher) → Accounts p' rs (next p'))
    → Accounts p (r ∷ rs) (after_receive q next)
unfolding after_receive
after_receive-Accounts p r rs (p', refused e) next h rest =
    Accounts-error p p' r rs e (λ d. omega (arith, h d))
after_receive-Accounts p r rs (p', registered x) next h rest =
    after_track-Accounts p r rs (track_subscriber p' x) next
      (λ d. track_subscriber-accounted p' x d ∙ h d) rest

-- While a new publisher receives its first subscribers, on every branch: of the records a part in front
-- is read, whose descriptors are each closed or kept as one of a tracked subscriber, none lost and none
-- twice; without an error all records are read, and after an error no descriptor is kept, so that all
-- of them are closed.
pub track_initial-Accounts :
    (rs : List Received) (p : Publisher) → Accounts p rs (track_initial rs p)
unfolding track_initial count
track_initial-Accounts [] p = record {
  used = [];
  left = [];
  parts = refl;
  kept = λ d. omega arith;
  ended = inl (refl, refl);
}
track_initial-Accounts (r ∷ rs) p =
    after_receive-Accounts p r rs (receive_subscriber_registration p (receive_packet_with_fd r))
      (track_initial rs)
      (λ d.
        receive-accounted p (receive_packet_with_fd r) d
        ∙ ap (λ (n : ℕ). accounted p d + n) (record-count r d))
      (track_initial-Accounts rs)
