-- ===== src/Publisher/Control.antt =====
-- The broker's records at a publisher: `handle_subscriber_disconnected_message`,
-- `handle_subscriber_registered_message` and `process_broker_control_messages` of src/publisher.cpp.
use mathlib.Core.Option
use drive_bus.Prelude.{
  ℕ, ◌-◌, ◌%◌, List, [], ◌∷◌, ◌++◌, Option, none, some, not, ltb, ◌||◌, ◌&&◌, ◌==◌, if◌then◌else◌,
  length, get_or,
}
use drive_bus.Protocol.{
  Packet, Cmsg, Received, packet, peer_closed, recv_failed, slot_of_packet, type_byte,
  subscriber_disconnected, subscriber_event_fd_and_slot,
}
use drive_bus.Publisher.{
  Publisher, RunError, SubscriberTrackingError, broker_control_message_processing_failed,
  broker_control_message_too_short, broker_closed, dynamic_subscriber_registration_failed,
}
use drive_bus.Publisher.Tracking.{track_subscriber}
use drive_bus.Publisher.Release.{reap_dead_subscribers}

-- A record's descriptors: those that ancillary data of type SCM_RIGHTS holds, if its size is whole.
unfoldable pub received_fds : Option Cmsg → List ℕ
received_fds none = []
received_fds (some c) = if c.is_rights && (c.fd_data_size % 4 == 0) then c.fds else []

-- `ReceivedFdsGuard` closes what no one has taken over.
abbrev pub close_received : List ℕ → Publisher × Option RunError → Publisher × Option RunError
close_received fds (p, e) = (record p { closed = fds ++ p.closed }, e)

-- `none` as in `reap_dead_subscribers`: a descriptor in the ring has no size class.
unfoldable pub handle_subscriber_disconnected_message :
    List ℕ → Publisher → Option (Publisher × Option RunError)
handle_subscriber_disconnected_message bytes p =
    if not (length bytes - 1 == 4)
    then some (p, some broker_control_message_processing_failed)
    else reap_dead_subscribers p (slot_of_packet bytes)

-- Any tracking error is one registration error here.
abbrev pub after_tracking : Publisher × Option SubscriberTrackingError → Publisher × Option RunError
after_tracking (p, none) = (p, none)
after_tracking (p, some e) = (p, some dynamic_subscriber_registration_failed)

-- A size of 4 is one descriptor, which `track_subscriber` takes over.
unfoldable pub handle_subscriber_registered_message :
    List ℕ → Option Cmsg → Publisher → Publisher × Option RunError
handle_subscriber_registered_message bytes cmsg p =
    if not (length bytes - 1 == 4)
    then (close_received (received_fds cmsg) (p, some broker_control_message_processing_failed))
    else elim cmsg [
      | none ↦ (p, some broker_control_message_processing_failed)
      | some c ↦
          if not c.is_rights || not (c.fd_data_size == 4)
          then close_received (received_fds (some c))
              (p, some broker_control_message_processing_failed)
          else elim c.fds [
            | [] ↦ (p, some broker_control_message_processing_failed)
            | ◌∷◌ fd rest ↦ close_received rest (
                after_tracking (
                  track_subscriber p
                    (record { data_available_event_fd = fd; slot_index = slot_of_packet bytes })))
          ]
    ]

-- One record, by its type.
unfoldable pub handle_packet : Packet → Publisher → Option (Publisher × Option RunError)
handle_packet k p =
    if k.truncated
    then some
        (close_received (received_fds k.cmsg) (p, some broker_control_message_processing_failed))
    else if ltb (length k.bytes) 1
    then some (close_received (received_fds k.cmsg) (p, some broker_control_message_too_short))
    else if type == type_byte subscriber_disconnected
    then Option.map (close_received (received_fds k.cmsg))
        (handle_subscriber_disconnected_message k.bytes p)
    else if type == type_byte subscriber_event_fd_and_slot
    then some (handle_subscriber_registered_message k.bytes k.cmsg p)
    else some
        (close_received (received_fds k.cmsg) (p, some broker_control_message_processing_failed))
  where
    type : ℕ
    type = get_or k.bytes 0 0

-- The next record, or the end at the first error.
unfoldable pub and_next :
    Option (Publisher × Option RunError)
    → (Publisher → Option (Publisher × Option RunError))
    → Option (Publisher × Option RunError)
and_next none rest = none
and_next (some (p, none)) rest = rest p
and_next (some (p, some e)) rest = some (p, some e)

-- What the socket gives until it would block, which ends the list. When the broker has closed the
-- connection the code also closes its own end, `broker_fd_`, which is not among the model's state.
unfoldable pub process_broker_control_messages :
    List Received → Publisher → Option (Publisher × Option RunError)
process_broker_control_messages [] p = some (p, none)
process_broker_control_messages (peer_closed ∷ rs) p = some (p, some broker_closed)
process_broker_control_messages (recv_failed ∷ rs) p =
    some (p, some broker_control_message_processing_failed)
process_broker_control_messages (packet k ∷ rs) p =
    let rest = process_broker_control_messages rs in and_next (handle_packet k p) rest
