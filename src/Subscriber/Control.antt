-- ===== src/Subscriber/Control.antt =====
-- What the broker's records do to a subscriber: `process_broker_control_messages`,
-- `install_subscriber_attachment_batch`, `handle_publisher_disconnected` and
-- `release_publisher_attachment` of src/subscriber.cpp.
pub mod Descriptors
use drive_bus.Prelude.{
  ℕ, zero, suc, ◌+◌, ◌-◌, ◌*◌, ◌/◌, ◌%◌, List, [], ◌∷◌, ◌++◌, Option, none, some, Bool, true, false,
  not, ltb, ◌||◌, ◌&&◌, ◌==◌, if◌then◌else◌, length, drop, get_or, find, erase,
}
use drive_bus.Layout.{invalid_index}
use drive_bus.Protocol.{
  Packet, Cmsg, Received, packet, peer_closed, recv_failed, Metadata, batch_of_body,
  attachment_metadata_size, attachment_id_of_packet, type_byte, subscriber_attachment_batch,
  publisher_disconnected,
}
use drive_bus.Subscriber.{
  PublisherAttachment, no_seq, RunError, publisher_disconnected_payload_size_mismatch,
  publisher_disconnected_attachment_missing, publisher_disconnected_event_fd_missing,
}

-- The tables, and the descriptors closed so far, the latest first. The sets of mapped regions and of
-- descriptors in the epoll instance are not kept.
pub record Subscriber : Type 0 where
  pub attachment_by_event_fd : List (ℕ × PublisherAttachment)
  pub event_fd_by_attachment_id : List (ℕ × ℕ)
  pub closed : List ℕ

-- The three descriptors of an attachment are closed.
unfoldable pub release_publisher_attachment : Subscriber → PublisherAttachment → Subscriber
release_publisher_attachment u a = record u {
  closed = a.data_available_event_fd ∷ a.space_available_event_fd ∷ a.shm_fd ∷ u.closed;
}

abbrev pub attachment_of : Metadata → ℕ → ℕ → ℕ → PublisherAttachment
attachment_of m shm_fd space_fd data_fd = record {
  topic_id = m.topic_id;
  shm_fd = shm_fd;
  space_available_event_fd = space_fd;
  data_available_event_fd = data_fd;
  slot_index = m.slot_index;
  subscriber_read_index = invalid_index;
  expected_seq = no_seq;
}

-- What the system answers for one entry: whether the region is mapped and the event is watched.
pub record Answer : Type 0 where
  pub mapped : Bool
  pub watched : Bool

-- The tables' answers for the identifier and for the event descriptor: the attachment is entered if
-- both are new.
unfoldable pub enter_attachment :
    Subscriber → ℕ → PublisherAttachment → Option ℕ → Option PublisherAttachment → Subscriber × Bool
enter_attachment u attachment_id a (some fd) found = (release_publisher_attachment u a, false)
enter_attachment u attachment_id a none (some b) = (release_publisher_attachment u a, false)
enter_attachment u attachment_id a none none = (
  record u {
    event_fd_by_attachment_id =
        (attachment_id, a.data_available_event_fd) ∷ u.event_fd_by_attachment_id;
    attachment_by_event_fd = (a.data_available_event_fd, a) ∷ u.attachment_by_event_fd;
  },
  true,
)

-- One entry of a batch, once its descriptors are taken over. It is installed unless its identifier or
-- its event descriptor stands in the tables; otherwise its descriptors are closed.
unfoldable pub install_attachment :
    Answer → Subscriber → ℕ → PublisherAttachment → Subscriber × Bool
install_attachment ans u attachment_id a =
    if not ans.mapped || not ans.watched
    then (release_publisher_attachment u a, false)
    else enter_attachment u attachment_id a (find attachment_id u.event_fd_by_attachment_id)
        (find a.data_available_event_fd u.attachment_by_event_fd)

-- `ReceivedFdsGuard` closes the received descriptors that no attachment has taken over.
abbrev pub close_remaining : Subscriber → List ℕ → Subscriber
close_remaining u fds = record u { closed = fds ++ u.closed }

-- After one entry: the next ones, or the end at the first failure.
unfoldable pub after_install :
    Subscriber × Bool → List ℕ → (Subscriber → Subscriber × Bool) → Subscriber × Bool
after_install (u, true) fds next = next u
after_install (u, false) fds next = (close_remaining u fds, false)

-- The loop over the entries, three descriptors to each. The caller has compared the numbers, so the
-- descriptors do not run out.
unfoldable pub install_entries :
    (ℕ → Answer) → ℕ → List Metadata → List ℕ → Subscriber → Subscriber × Bool
install_entries ans n [] fds u = (close_remaining u fds, true)
install_entries ans n (m ∷ ms) (shm_fd ∷ space_fd ∷ data_fd ∷ fds) u =
    let next = install_entries ans (n + 1) ms fds in
    after_install
      (install_attachment (ans n) u m.attachment_id (attachment_of m shm_fd space_fd data_fd)) fds
      next
install_entries ans n (m ∷ ms) fds u = (close_remaining u fds, false)

-- A record's descriptors: those that ancillary data of type SCM_RIGHTS holds, if its size is whole.
unfoldable pub received_fds : Option Cmsg → List ℕ
received_fds none = []
received_fds (some c) = if c.is_rights && (c.fd_data_size % 4 == 0) then c.fds else []

-- `count` entries of a batch, against the ancillary data.
unfoldable pub install_counted :
    (ℕ → Answer) → ℕ → List ℕ → Option Cmsg → Subscriber → Subscriber × Bool
install_counted ans zero bytes none u = (u, true)
install_counted ans zero bytes (some c) u = (close_remaining u (received_fds (some c)), false)
install_counted ans (suc n) bytes none u = (u, false)
install_counted ans (suc n) bytes (some c) u =
    if not c.is_rights || not (c.fd_data_size % 4 == 0) || not (c.fd_data_size / 4 == suc n * 3)
    then (close_remaining u (received_fds (some c)), false)
    else install_entries ans 0 (batch_of_body (suc n) bytes) c.fds u

unfoldable pub install_subscriber_attachment_batch :
    (ℕ → Answer) → Packet → Subscriber → Subscriber × Bool
install_subscriber_attachment_batch ans p u =
    if not ((length p.bytes - 1) % attachment_metadata_size == 0)
    then (close_remaining u (received_fds p.cmsg), false)
    else install_counted ans ((length p.bytes - 1) / attachment_metadata_size) (drop 1 p.bytes)
        p.cmsg u

-- The entry of an attachment in the second table.
unfoldable pub drop_attachment :
    Subscriber → ℕ → ℕ → Option PublisherAttachment → Subscriber × Option RunError
drop_attachment u attachment_id fd none = (u, some publisher_disconnected_event_fd_missing)
drop_attachment u attachment_id fd (some a) = (
  record (release_publisher_attachment u a) {
    event_fd_by_attachment_id = erase attachment_id u.event_fd_by_attachment_id;
    attachment_by_event_fd = erase fd u.attachment_by_event_fd;
  },
  none,
)

-- The entry in the first table.
unfoldable pub disconnect_attachment : Subscriber → ℕ → Option ℕ → Subscriber × Option RunError
disconnect_attachment u attachment_id none = (u, some publisher_disconnected_attachment_missing)
disconnect_attachment u attachment_id (some fd) =
    drop_attachment u attachment_id fd (find fd u.attachment_by_event_fd)

-- The attachment leaves both tables, and its descriptors are closed.
unfoldable pub handle_publisher_disconnected : List ℕ → Subscriber → Subscriber × Option RunError
handle_publisher_disconnected bytes u =
    if not (length bytes - 1 == 8)
    then (u, some publisher_disconnected_payload_size_mismatch)
    else disconnect_attachment u (attachment_id_of_packet bytes)
        (find (attachment_id_of_packet bytes) u.event_fd_by_attachment_id)

-- The loop goes on after a disconnection that was handled.
abbrev pub after_disconnection : Subscriber × Option RunError → Subscriber × Bool
after_disconnection (u, none) = (u, true)
after_disconnection (u, some e) = (u, false)

-- The next record, or the end after a failure.
unfoldable pub and_next : Subscriber × Bool → (Subscriber → Subscriber × Bool) → Subscriber × Bool
and_next (u, true) rest = rest u
and_next (u, false) rest = (u, false)

-- One record, by its type. The tables after it, and whether the loop goes on.
unfoldable pub handle_packet : (ℕ → Answer) → Packet → Subscriber → Subscriber × Bool
handle_packet ans p u =
    if p.truncated || ltb (length p.bytes) 1
    then (close_remaining u (received_fds p.cmsg), false)
    else if type == type_byte subscriber_attachment_batch
    then install_subscriber_attachment_batch ans p u
    else if type == type_byte publisher_disconnected
    then after_disconnection
        (handle_publisher_disconnected p.bytes (close_remaining u (received_fds p.cmsg)))
    else (close_remaining u (received_fds p.cmsg), false)
  where
    type : ℕ
    type = get_or p.bytes 0 0

-- `process_broker_control_messages`: what the socket gives until it would block, which ends the list.
unfoldable pub process_broker_control_messages :
    (ℕ → ℕ → Answer) → ℕ → List Received → Subscriber → Subscriber × Bool
process_broker_control_messages ans n [] u = (u, true)
process_broker_control_messages ans n (peer_closed ∷ rs) u = (u, false)
process_broker_control_messages ans n (recv_failed ∷ rs) u = (u, false)
process_broker_control_messages ans n (packet p ∷ rs) u =
    let rest = process_broker_control_messages ans (n + 1) rs in
    and_next (handle_packet (ans n) p u) rest
