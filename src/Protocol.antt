-- ===== src/Protocol.antt =====
-- The control protocol of include/broker_protocol.hpp: the records that the broker, the publishers and
-- the subscribers exchange, as the bytes that the senders write and as the receivers take them apart.
-- A socket delivers whole records (SOCK_SEQPACKET), with the descriptors of their ancillary data.
pub mod RoundTrip
use drive_bus.Prelude.{
  ℕ, zero, suc, ◌+◌, ◌*◌, List, [], ◌∷◌, ◌++◌, Option, none, some, Bool, not, ltb, leb, ◌||◌, ◌==◌,
  if◌then◌else◌, length, take, drop,
}
use drive_bus.Bytes.{to_bytes, of_bytes}

pub data BrokerMessageType : Type 0 where
  status_query status_snapshot subscriber_topic_registration : BrokerMessageType
  subscriber_disconnected subscriber_event_fd_and_slot : BrokerMessageType
  subscriber_attachment_batch publisher_topic_registration : BrokerMessageType
  publisher_disconnected : BrokerMessageType

-- The underlying `uint8_t`.
unfoldable pub type_byte : BrokerMessageType → ℕ
type_byte status_query = 0
type_byte status_snapshot = 1
type_byte subscriber_topic_registration = 2
type_byte subscriber_disconnected = 3
type_byte subscriber_event_fd_and_slot = 4
type_byte subscriber_attachment_batch = 5
type_byte publisher_topic_registration = 6
type_byte publisher_disconnected = 7

abbrev pub max_subscriber_topic_count : ℕ
max_subscriber_topic_count = 5

-- `sizeof(AttachmentId) + sizeof(TopicId) + sizeof(uint32_t)`
abbrev pub attachment_metadata_size : ℕ
attachment_metadata_size = 8 + 1 + 4

abbrev pub max_attachments_per_batch : ℕ
max_attachments_per_batch = 10

-- Ancillary data: whether it is SCM_RIGHTS, the size of its contents, and the descriptors in it. That
-- its length covers its own header is taken for granted.
pub record Cmsg : Type 0 where
  pub is_rights : Bool
  pub fd_data_size : ℕ
  pub fds : List ℕ

-- A record as `recvmsg` gives it; `truncated` is MSG_TRUNC or MSG_CTRUNC.
pub record Packet : Type 0 where
  pub bytes : List ℕ
  pub truncated : Bool
  pub cmsg : Option Cmsg

pub data Received : Type 0 where
  packet : Packet → Received
  peer_closed recv_failed : Received

-- A record of the type and one `uint32_t`: `SubscriberDisconnected` and `SubscriberEventFdAndSlot`.
unfoldable pub slot_packet : BrokerMessageType → ℕ → List ℕ
slot_packet type slot = type_byte type ∷ to_bytes 4 slot

-- `memcpy(&slot, packet + sizeof(BrokerMessageType), sizeof(slot))`
unfoldable pub slot_of_packet : List ℕ → ℕ
slot_of_packet bytes = of_bytes (take 4 (drop 1 bytes))

-- `PublisherDisconnected`
unfoldable pub publisher_disconnected_packet : ℕ → List ℕ
publisher_disconnected_packet attachment_id =
    type_byte publisher_disconnected ∷ to_bytes 8 attachment_id

unfoldable pub attachment_id_of_packet : List ℕ → ℕ
attachment_id_of_packet bytes = of_bytes (take 8 (drop 1 bytes))

-- What a batch tells of an attachment.
pub record Metadata : Type 0 where
  pub attachment_id : ℕ
  pub topic_id : ℕ
  pub slot_index : ℕ

unfoldable pub metadata_bytes : Metadata → List ℕ
metadata_bytes m = to_bytes 8 m.attachment_id ++ (to_bytes 1 m.topic_id ++ to_bytes 4 m.slot_index)

unfoldable pub batch_body : List Metadata → List ℕ
batch_body [] = []
batch_body (m ∷ ms) = metadata_bytes m ++ batch_body ms

unfoldable pub batch_packet : List Metadata → List ℕ
batch_packet ms = type_byte subscriber_attachment_batch ∷ batch_body ms

unfoldable pub metadata_of_bytes : List ℕ → Metadata
metadata_of_bytes bytes = record {
  attachment_id = of_bytes (take 8 bytes);
  topic_id = of_bytes (take 1 (drop 8 bytes));
  slot_index = of_bytes (take 4 (drop 9 bytes));
}

-- The first `count` entries of a batch's body.
unfoldable pub batch_of_body : ℕ → List ℕ → List Metadata
batch_of_body zero bytes = []
batch_of_body (suc count) bytes =
    metadata_of_bytes bytes ∷ batch_of_body count (drop attachment_metadata_size bytes)

-- `send_subscriber_topic_registration`: the count and five topics, those beyond the count being 0.
-- `none` is TopicRegistrationCountExceeded.
unfoldable pub topics_padded : ℕ → List ℕ → List ℕ
topics_padded zero topics = []
topics_padded (suc n) [] = 0 ∷ topics_padded n []
topics_padded (suc n) (t ∷ topics) = t ∷ topics_padded n topics

unfoldable pub topic_registration_packet : List ℕ → Option (List ℕ)
topic_registration_packet topics =
    if (length topics == 0) || ltb max_subscriber_topic_count (length topics)
    then none
    else some (
        type_byte subscriber_topic_registration
        ∷ (to_bytes 4 (length topics) ++ topics_padded max_subscriber_topic_count topics))

-- The broker's reading of it: `none` ends the broker, on a wrong size or count.
unfoldable pub topics_of_packet : List ℕ → Option (List ℕ)
topics_of_packet bytes =
    if not (length bytes == 1 + 4 + max_subscriber_topic_count)
    then none
    else if (count == 0) || ltb max_subscriber_topic_count count
    then none
    else some (take count (drop 5 bytes))
  where
    count : ℕ
    count = of_bytes (take 4 (drop 1 bytes))
