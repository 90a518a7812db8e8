-- ===== src/Publisher/Initial.antt =====
-- The subscribers that the broker announces when a publisher is created: `receive_packet_with_fd` of
-- src/fd_helpers.cpp, and `receive_subscriber_registration` and
-- `receive_and_track_initial_subscriber_registrations` of src/publisher.cpp.
pub mod Descriptors
use drive_bus.Prelude.{
  ℕ, List, [], ◌∷◌, ◌++◌, Option, none, some, Bool, not, ◌||◌, ◌==◌, if◌then◌else◌, length, get_or,
}
use drive_bus.Bytes.{of_bytes}
use drive_bus.Protocol.{
  Packet, Cmsg, Received, packet, peer_closed, recv_failed, slot_of_packet, type_byte,
  subscriber_event_fd_and_slot,
}
use drive_bus.Publisher.{
  Publisher, SubscriberRegistration, SubscriberTrackingError, slot_out_of_range,
  slot_already_tracked, event_fd_already_tracked,
}
use drive_bus.Publisher.Tracking.{track_subscriber}
use drive_bus.Publisher.Control.{received_fds}

-- `CreateError`
pub data CreateError : Type 0 where
  shared_memory_unlink_failed shared_memory_open_failed shared_memory_resize_failed : CreateError
  shared_memory_map_failed epoll_create_failed broker_socket_create_failed : CreateError
  broker_connect_failed broker_epoll_add_failed space_available_event_fd_create_failed : CreateError
  space_available_epoll_add_failed topic_registration_send_failed : CreateError
  publish_work_event_fd_create_failed publish_work_epoll_add_failed : CreateError
  publish_work_initial_signal_failed shutdown_event_fd_create_failed : CreateError
  shutdown_epoll_add_failed worker_exit_event_fd_create_failed run_thread_create_failed :
      CreateError
  publisher_mode_flags_invalid initial_subscriber_count_receive_failed : CreateError
  initial_subscriber_registration_receive_failed : CreateError
  initial_subscriber_registration_event_fd_missing : CreateError
  initial_subscriber_registration_type_invalid subscriber_slot_out_of_range : CreateError
  subscriber_slot_already_tracked subscriber_event_fd_already_tracked : CreateError

-- What `receive_packet_with_fd` gives: a record, with one descriptor unless the peer has closed the
-- connection, or an error. `closed` holds the descriptors that its guard closes.
pub data PacketWithFd : Type 0 where
  got : (bytes : List ℕ) (fd : ℕ) (closed : List ℕ) → PacketWithFd
  nothing : PacketWithFd
  no_packet : (closed : List ℕ) → PacketWithFd

-- The descriptor of ancillary data of the size of one; the guard closes what else there is.
unfoldable pub take_fd : List ℕ → List ℕ → PacketWithFd
take_fd bytes [] = no_packet []
take_fd bytes (fd ∷ fds) = got bytes fd fds

unfoldable pub single_fd : List ℕ → Option Cmsg → PacketWithFd
single_fd bytes none = no_packet []
single_fd bytes (some c) =
    if not c.is_rights || not (c.fd_data_size == 4)
    then no_packet (received_fds (some c))
    else take_fd bytes c.fds

unfoldable pub receive_packet_with_fd : Received → PacketWithFd
receive_packet_with_fd recv_failed = no_packet []
receive_packet_with_fd peer_closed = nothing
receive_packet_with_fd (packet k) =
    if k.truncated then no_packet (received_fds k.cmsg) else single_fd k.bytes k.cmsg

pub data Registration : Type 0 where
  registered : SubscriberRegistration → Registration
  refused : CreateError → Registration

-- The checks of a record that came with a descriptor: on an error its guard closes it.
unfoldable pub check_registration : Publisher → List ℕ → ℕ → Publisher × Registration
check_registration p bytes fd =
    if not (length bytes == 5)
    then (
      record p { closed = fd ∷ p.closed },
      refused initial_subscriber_registration_receive_failed,
    )
    else if not (get_or bytes 0 0 == type_byte subscriber_event_fd_and_slot)
    then (record p { closed = fd ∷ p.closed }, refused initial_subscriber_registration_type_invalid)
    else (
      p,
      registered (record { data_available_event_fd = fd; slot_index = slot_of_packet bytes }),
    )

-- The test for a missing descriptor finds nothing: a record without one is an error before it.
unfoldable pub receive_subscriber_registration : Publisher → PacketWithFd → Publisher × Registration
receive_subscriber_registration p (no_packet fds) =
    (record p { closed = fds ++ p.closed }, refused initial_subscriber_registration_receive_failed)
receive_subscriber_registration p nothing =
    (p, refused initial_subscriber_registration_receive_failed)
receive_subscriber_registration p (got bytes fd fds) =
    check_registration (record p { closed = fds ++ p.closed }) bytes fd

unfoldable pub error_of_tracking : SubscriberTrackingError → CreateError
error_of_tracking slot_out_of_range = subscriber_slot_out_of_range
error_of_tracking slot_already_tracked = subscriber_slot_already_tracked
error_of_tracking event_fd_already_tracked = subscriber_event_fd_already_tracked

-- `close_initial_subscriber_event_fds`. The code leaves -1 in place of each closed descriptor.
unfoldable pub close_initial_subscriber_event_fds : Publisher → Publisher
close_initial_subscriber_event_fds p = record p {
  data_available_event_fds = [];
  closed = p.data_available_event_fds ++ p.closed;
}

-- After the tracking of one subscriber.
unfoldable pub after_track :
    Publisher × Option SubscriberTrackingError
    → (Publisher → Publisher × Option CreateError)
    → Publisher × Option CreateError
after_track (p, none) next = next p
after_track (p, some e) next = (close_initial_subscriber_event_fds p, some (error_of_tracking e))

unfoldable pub after_receive :
    Publisher × Registration
    → (Publisher → Publisher × Option CreateError)
    → Publisher × Option CreateError
after_receive (p, refused e) next = (close_initial_subscriber_event_fds p, some e)
after_receive (p, registered r) next = after_track (track_subscriber p r) next

-- The loop over as many records as the broker has announced.
unfoldable pub track_initial : List Received → Publisher → Publisher × Option CreateError
track_initial [] p = (p, none)
track_initial (r ∷ rs) p =
    let next = track_initial rs in
    after_receive (receive_subscriber_registration p (receive_packet_with_fd r)) next

-- `count` is what the socket gives for the number of subscribers, and `socket` the records behind it.
unfoldable pub receive_and_track_initial_subscriber_registrations :
    Option (List ℕ) → (ℕ → List Received) → Publisher → Publisher × Option CreateError
receive_and_track_initial_subscriber_registrations none socket p =
    (p, some initial_subscriber_count_receive_failed)
receive_and_track_initial_subscriber_registrations (some bytes) socket p =
    if not (length bytes == 4)
    then (p, some initial_subscriber_count_receive_failed)
    else track_initial (socket (of_bytes bytes)) p
