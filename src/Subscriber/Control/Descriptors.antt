-- ===== src/Subscriber/Control/Descriptors.antt =====
-- The descriptors that a subscriber receives, in src/subscriber.cpp: each is closed or is one of an
-- attachment.
use native.Mathlib.Omega.{arith}
use mathlib.Core.Option.{some-injective}
use drive_bus.Prelude.{
  ℕ, zero, suc, ◌+◌, ◌-◌, ◌*◌, ◌/◌, ◌%◌, List, [], ◌∷◌, Option, none, some, Bool, Bool-cases, inl,
  inr, true, false, not, ltb, ◌||◌, ◌&&◌, ◌==◌, ◌≡◌, refl, sym, subst, ◌∙◌, length, get_or, find,
  erase, tick, count, count-append,
}
use drive_bus.Protocol.{
  Packet, Cmsg, Metadata, batch_of_body, attachment_metadata_size, type_byte,
  subscriber_attachment_batch, publisher_disconnected,
}
use drive_bus.Subscriber.{PublisherAttachment, RunError}
use drive_bus.Subscriber.Control.{
  Subscriber, enter_attachment, install_counted, drop_attachment, disconnect_attachment,
  release_publisher_attachment, attachment_of, Answer, install_attachment, close_remaining,
  after_install, install_entries, received_fds, install_subscriber_attachment_batch,
  handle_publisher_disconnected, after_disconnection, handle_packet,
}

-- How often a number is one of an attachment's three descriptors.
abbrev pub count_own : ℕ → PublisherAttachment → ℕ
count_own d a =
    tick (a.data_available_event_fd == d)
    + (tick (a.space_available_event_fd == d) + tick (a.shm_fd == d))

unfoldable pub count_owned : ℕ → List (ℕ × PublisherAttachment) → ℕ
count_owned d [] = 0
count_owned d ((fd, a) ∷ m) = count_own d a + count_owned d m

-- How often a descriptor was closed or belongs to an attachment.
abbrev pub accounted : Subscriber → ℕ → ℕ
accounted u d = count d u.closed + count_owned d u.attachment_by_event_fd

release-accounted :
    (u : Subscriber) (a : PublisherAttachment) (d : ℕ)
    → accounted (release_publisher_attachment u a) d ≡ accounted u d + count_own d a
unfolding release_publisher_attachment count
release-accounted u a d = omega arith

close_remaining-accounted :
    (u : Subscriber) (fds : List ℕ) (d : ℕ)
    → accounted (close_remaining u fds) d ≡ accounted u d + count d fds
close_remaining-accounted u fds d = ground (arith, count-append d fds u.closed)

enter_attachment-accounted :
    (u : Subscriber) (id : ℕ) (a : PublisherAttachment) (x : Option ℕ)
    (y : Option PublisherAttachment) (d : ℕ)
    → accounted (enter_attachment u id a x y).0 d ≡ accounted u d + count_own d a
unfolding enter_attachment count_owned
enter_attachment-accounted u id a (some fd) y d = release-accounted u a d
enter_attachment-accounted u id a none (some b) d = release-accounted u a d
enter_attachment-accounted u id a none none d = omega arith

install_attachment-accounted :
    (ans : Answer) (u : Subscriber) (id : ℕ) (a : PublisherAttachment) (d : ℕ)
    → accounted (install_attachment ans u id a).0 d ≡ accounted u d + count_own d a
unfolding install_attachment
install_attachment-accounted ans u id a d = elim (Bool-cases (not ans.mapped || not ans.watched)) [
  | inl e ↦ simp e (release-accounted u a d)
  | inr e ↦ simp e (enter_attachment-accounted u id a _ _ d)
]

after_install-accounted :
    (r : Subscriber × Bool) (fds : List ℕ) (next : Subscriber → Subscriber × Bool) (d : ℕ)
    → ((u : Subscriber) → accounted (next u).0 d ≡ accounted u d + count d fds)
    → accounted (after_install r fds next).0 d ≡ accounted r.0 d + count d fds
unfolding after_install
after_install-accounted (u, true) fds next d h = h u
after_install-accounted (u, false) fds next d h = close_remaining-accounted u fds d

-- A batch's loop closes or installs the descriptors it is given.
install_entries-accounted :
    (ans : ℕ → Answer) (n : ℕ) (ms : List Metadata) (fds : List ℕ) (u : Subscriber) (d : ℕ)
    → accounted (install_entries ans n ms fds u).0 d ≡ accounted u d + count d fds
unfolding install_entries count
install_entries-accounted ans n [] fds u d = close_remaining-accounted u fds d
install_entries-accounted ans n (m ∷ ms) [] u d = close_remaining-accounted u [] d
install_entries-accounted ans n (m ∷ ms) (x ∷ []) u d = close_remaining-accounted u (x ∷ []) d
install_entries-accounted ans n (m ∷ ms) (x ∷ y ∷ []) u d =
    close_remaining-accounted u (x ∷ y ∷ []) d
install_entries-accounted ans n (m ∷ ms) (x ∷ y ∷ z ∷ fds) u d =
    three _ _ (accounted u d) (tick (x == d)) (tick (y == d)) (tick (z == d)) (count d fds)
      (after_install-accounted
        (install_attachment (ans n) u m.attachment_id (attachment_of m x y z)) fds
        (install_entries ans (n + 1) ms fds) d
        (λ u'. install_entries-accounted ans (n + 1) ms fds u' d))
      (install_attachment-accounted (ans n) u m.attachment_id (attachment_of m x y z) d)
  where
    three :
        (all one before a b c rest : ℕ)
        → all ≡ one + rest
        → one ≡ before + (c + (b + a))
        → all ≡ before + (a + (b + (c + rest)))
    three all one before a b c rest e f = omega arith

-- What a record brings.
abbrev Accounts : Subscriber → List ℕ → Subscriber → Type 0
Accounts u fds u' = (d : ℕ) → accounted u' d ≡ accounted u d + count d fds

closed-Accounts : (u : Subscriber) (fds : List ℕ) → Accounts u fds (close_remaining u fds)
closed-Accounts u fds d = close_remaining-accounted u fds d

received_all :
    (c : Cmsg) → (c.is_rights && (c.fd_data_size % 4 == 0)) ≡ true → received_fds (some c) ≡ c.fds
unfolding received_fds
received_all c e = simp e refl

both : (a b c : Bool) → ((not a || not b) || not c) ≡ false → (a && b) ≡ true
both true true c e = refl
both true false c e = absurd (ground arith)
both false b c e = absurd (ground arith)

install_counted-Accounts :
    (ans : ℕ → Answer) (n : ℕ) (bytes : List ℕ) (c : Option Cmsg) (u : Subscriber)
    → Accounts u (received_fds c) (install_counted ans n bytes c u).0
unfolding install_counted received_fds count
install_counted-Accounts ans zero bytes none u d = omega arith
install_counted-Accounts ans zero bytes (some c) u d = close_remaining-accounted u _ d
install_counted-Accounts ans (suc n) bytes none u d = omega arith
install_counted-Accounts ans (suc n) bytes (some c) u d =
    elim (Bool-cases
      (not c.is_rights || not (c.fd_data_size % 4 == 0) || not (c.fd_data_size / 4 == suc n * 3))) [
        | inl e ↦ rw e (close_remaining-accounted u _ d)
        | inr e ↦ simp e (
            subst
              (λ fds.
                accounted (install_entries ans 0 (batch_of_body (suc n) bytes) c.fds u).0 d
                ≡ accounted u d + count d fds)
              (sym (received_all c (both c.is_rights (c.fd_data_size % 4 == 0) _ e)))
              (install_entries-accounted ans 0 (batch_of_body (suc n) bytes) c.fds u d))
      ]

install_batch-Accounts :
    (ans : ℕ → Answer) (p : Packet) (u : Subscriber)
    → Accounts u (received_fds p.cmsg) (install_subscriber_attachment_batch ans p u).0
unfolding install_subscriber_attachment_batch
install_batch-Accounts ans p u =
    elim (Bool-cases (not ((length p.bytes - 1) % attachment_metadata_size == 0))) [
      | inl e ↦ simp e (closed-Accounts u (received_fds p.cmsg))
      | inr e ↦ simp e (install_counted-Accounts ans _ _ p.cmsg u)
    ]

count_owned-erase :
    (fd : ℕ) (m : List (ℕ × PublisherAttachment)) {a : PublisherAttachment} (d : ℕ)
    → find fd m ≡ some a
    → count_own d a + count_owned d (erase fd m) ≡ count_owned d m
unfolding find erase count_owned
count_owned-erase fd [] d e = absurd (ground arith)
count_owned-erase fd ((j, v) ∷ m) {a} d e = elim (Bool-cases (j == fd)) [
  | inl c ↦ rw c (
      subst (λ x. count_own d x + count_owned d m ≡ count_own d v + count_owned d m)
        (some-injective v a (rw c at e)) refl)
  | inr c ↦ rw c (swap (count_own d v) _ _ _ (count_owned-erase fd m d (rw c at e)))
]
  where
    swap : (n x y z : ℕ) → x + y ≡ z → x + (n + y) ≡ n + z
    swap n x y z e = omega arith

drop_attachment-accounted :
    (u : Subscriber) (id fd : ℕ) (x : Option PublisherAttachment) (d : ℕ)
    → find fd u.attachment_by_event_fd ≡ x
    → accounted (drop_attachment u id fd x).0 d ≡ accounted u d
unfolding drop_attachment count count_owned release_publisher_attachment
drop_attachment-accounted u id fd none d e = refl
drop_attachment-accounted u id fd (some a) d e =
    moved _ _ _ _ _ (release-accounted u a d) (count_owned-erase fd u.attachment_by_event_fd d e)
  where
    moved :
        (closed' closed own left all : ℕ)
        → closed' + all ≡ (closed + all) + own
        → own + left ≡ all
        → closed' + left ≡ closed + all
    moved closed' closed own left all e f = omega arith

disconnect-accounted :
    (u : Subscriber) (id : ℕ) (x : Option ℕ) (d : ℕ)
    → accounted (disconnect_attachment u id x).0 d ≡ accounted u d
unfolding disconnect_attachment
disconnect-accounted u id none d = refl
disconnect-accounted u id (some fd) d = drop_attachment-accounted u id fd _ d refl

disconnected-accounted :
    (bytes : List ℕ) (u : Subscriber) (d : ℕ)
    → accounted (handle_publisher_disconnected bytes u).0 d ≡ accounted u d
unfolding handle_publisher_disconnected
disconnected-accounted bytes u d = elim (Bool-cases (not (length bytes - 1 == 8))) [
  | inl e ↦ rw e refl
  | inr e ↦ rw e (disconnect-accounted u _ _ d)
]

after_disconnection-same : (r : Subscriber × Option RunError) → (after_disconnection r).0 ≡ r.0
after_disconnection-same (u, none) = refl
after_disconnection-same (u, some e) = refl

-- For every record, every descriptor and every state: the times that the descriptor was closed or is
-- one of an attachment's are, after the record, those before it and its occurrences among the record's
-- descriptors. So a received descriptor is neither lost nor closed twice.
pub handle_packet-accounted :
    (ans : ℕ → Answer) (p : Packet) (u : Subscriber) (d : ℕ)
    → accounted (handle_packet ans p u).0 d ≡ accounted u d + count d (received_fds p.cmsg)
unfolding handle_packet
handle_packet-accounted ans p u d = elim (Bool-cases (p.truncated || ltb (length p.bytes) 1)) [
  | inl e ↦ simp e (closed-Accounts u (received_fds p.cmsg) d)
  | inr e ↦ simp e (elim (Bool-cases (type == type_byte subscriber_attachment_batch)) [
    | inl f ↦ simp f (install_batch-Accounts ans p u d)
    | inr f ↦ simp f (elim (Bool-cases (type == type_byte publisher_disconnected)) [
      | inl g ↦ simp g (
          subst (λ x. accounted x d ≡ accounted u d + count d (received_fds p.cmsg))
            (sym (
              after_disconnection-same
                (handle_publisher_disconnected p.bytes (close_remaining u (received_fds p.cmsg)))))
            (disconnected-accounted p.bytes (close_remaining u (received_fds p.cmsg)) d
              ∙ closed-Accounts u (received_fds p.cmsg) d))
      | inr g ↦ simp g (closed-Accounts u (received_fds p.cmsg) d)
    ])
  ])
]
  where
    type : ℕ
    type = get_or p.bytes 0 0
