-- ===== src/Tests/Tables.antt =====
-- Runs on the broker's tables.
use native.Mathlib.Omega.{arith}
use drive_bus.Prelude.{
  ℕ, ◌+◌, ◌≡◌, List, [], ◌∷◌, Option, none, some, true, refl, find, find_or, put, insert, erase,
}
use drive_bus.Protocol.{topics_of_packet}
use drive_bus.Bytes.{of_bytes}
use drive_bus.Broker.{Broker, SubscriberAttachment, System, publisher, send, and_then}
use drive_bus.Broker.Register.{
  register_subscriber, register_topics, register_topic, attach_publishers, attach_publisher,
  attach_slot, count_attachment, finish_subscriber, send_subscriber_attachment_batch_message,
}
use drive_bus.Broker.Leave.{
  handle_subscriber_disconnect, release_attachments, release_attachment, leave_topics, leave_topic,
  remove,
}
use drive_bus.Broker.Slots.{slot_count}
use drive_bus.Broker.Slots.Part.{handle_subscriber_disconnect-slot_count}
use drive_bus.Layout.{max_subscribers}
use drive_bus.Broker.{slots_from, emplace}
use drive_bus.Broker.Register.{
  register_publisher, register_publisher_fds, open_topic, attach_subscribers, attach_subscriber,
}
use drive_bus.Broker.Slots.{count_free, count_held, count_all_held}
use drive_bus.Broker.Slots.Open.{register_publisher-slot_count}
use drive_bus.Prelude.{count, tick, ltb, ◌==◌, ◌&&◌, if◌then◌else◌}
use drive_bus.Broker.{subscriber}
use drive_bus.Protocol.{Cmsg}
use drive_bus.Broker.Leave.{
  handle_publisher_disconnect, topic_of_publisher, detach_all, detach_subscribers,
  detach_subscriber, take_attachment, forget_publisher, set_publishers,
}
use drive_bus.Broker.Slots.Close.{handle_publisher_disconnect-slot_count}

-- A system that refuses nothing.
abbrev pub system : System
system = record { event_fd = λ n. some 40; delivered = λ n. true }

-- One publisher, descriptor 7, of topic 1, with the slots 0 and 1 free.
abbrev pub broker : Broker
broker = record {
  next_attachment_id = 1;
  available_slots = λ t q. some (0 ∷ 1 ∷ []);
  attachments = [];
  roles = (7, publisher) ∷ [];
  shm_fds = (7, 20) ∷ [];
  topics_of_subscriber = [];
  publishers_of_topic = (1, 7 ∷ []) ∷ [];
  space_event_fds = (7, 21) ∷ [];
  subscribers_of_topic = [];
  closed = [];
  sent = [];
}

abbrev topic_one : List ℕ
topic_one = 2 ∷ 1 ∷ 0 ∷ 0 ∷ 0 ∷ 1 ∷ 0 ∷ 0 ∷ 0 ∷ 0 ∷ []

abbrev or_broker : Option Broker → Broker
or_broker none = broker
or_broker (some b) = b

-- The broker with a subscriber, descriptor 9, and without it again.
abbrev joined : Broker
joined = or_broker (register_subscriber system 9 topic_one broker)

abbrev parted : Broker
parted = or_broker (handle_subscriber_disconnect system 9 joined)

-- The same client registers again: its second slot is in no table any more.
abbrev joined_again : Broker
joined_again = or_broker (register_subscriber system 9 topic_one joined)

second_slot_lost : slot_count joined_again 1 7 1 ≡ 0
unfolding register_subscriber topics_of_packet of_bytes and_then register_topics register_topic find
    put attach_publishers attach_publisher attach_slot send count_attachment finish_subscriber
    send_subscriber_attachment_batch_message insert count count_all_held count_held
second_slot_lost = refl

parts : handle_subscriber_disconnect system 9 joined ≡ some parted
unfolding register_subscriber topics_of_packet of_bytes and_then register_topics register_topic find
    put attach_publishers attach_publisher attach_slot send count_attachment finish_subscriber
    send_subscriber_attachment_batch_message insert handle_subscriber_disconnect release_attachments
    release_attachment leave_topics leave_topic remove erase
parts = refl

abbrev joined_attachments : List SubscriberAttachment
joined_attachments = find_or (find 9 joined.attachments) []

joins_nine : find 9 joined.attachments ≡ some joined_attachments
unfolding register_subscriber topics_of_packet of_bytes and_then register_topics register_topic find
    put attach_publishers attach_publisher attach_slot send count_attachment finish_subscriber
    send_subscriber_attachment_batch_message insert
joins_nine = refl

handle_subscriber_disconnect-slot_count_example :
    (count_free (parted.available_slots 1 7) 0
      ≡ count_held joined_attachments 1 7 0 + count_free (joined.available_slots 1 7) 0)
    × (count_held joined_attachments 1 7 0 + count_all_held parted.attachments 1 7 0
        ≡ count_all_held joined.attachments 1 7 0)
handle_subscriber_disconnect-slot_count_example =
    handle_subscriber_disconnect-slot_count system 9 joined joined_attachments 1 7 0 joins_nine
      parts

-- A broker with one subscriber, 9, that waits for topic 1, and no publisher.
abbrev waiting_broker : Broker
waiting_broker = record broker {
  available_slots = λ t q. none;
  attachments = (9, []) ∷ [];
  roles = (9, subscriber) ∷ [];
  shm_fds = [];
  topics_of_subscriber = (9, 1 ∷ []) ∷ [];
  publishers_of_topic = [];
  space_event_fds = [];
  subscribers_of_topic = (1, 9 ∷ []) ∷ [];
}

abbrev two_fds : Option Cmsg
two_fds = some (record { is_rights = true; fd_data_size = 8; fds = 20 ∷ 21 ∷ [] })

abbrev opened : Broker
opened = or_broker (register_publisher system 7 (6 ∷ 1 ∷ []) 0 two_fds waiting_broker)

opens : register_publisher system 7 (6 ∷ 1 ∷ []) 0 two_fds waiting_broker ≡ some opened
unfolding register_publisher register_publisher_fds find open_topic and_then send attach_subscribers
    attach_subscriber slots_from emplace attach_slot count_attachment
    send_subscriber_attachment_batch_message put insert
opens = refl

register_publisher-slot_count_example :
    slot_count opened 1 7 0
    ≡ (if (1 == 1) && (7 == 7)
        then tick (ltb 0 max_subscribers)
        else count_free (waiting_broker.available_slots 1 7) 0)
      + count_all_held waiting_broker.attachments 1 7 0
register_publisher-slot_count_example =
    register_publisher-slot_count system 7 (6 ∷ 1 ∷ []) 0 two_fds waiting_broker 1 7 0 opens

-- The broker of `joined` after its publisher has gone; publisher 8 has two free slots there.
abbrev closed : Broker
closed = or_broker (handle_publisher_disconnect system 7 joined)

closes : handle_publisher_disconnect system 7 joined ≡ some closed
unfolding register_subscriber topics_of_packet of_bytes and_then register_topics register_topic find
    put attach_publishers attach_publisher attach_slot send count_attachment finish_subscriber
    send_subscriber_attachment_batch_message insert handle_publisher_disconnect topic_of_publisher
    remove detach_all detach_subscribers detach_subscriber take_attachment forget_publisher
    set_publishers erase
closes = refl

handle_publisher_disconnect-slot_count_example : slot_count closed 1 8 0 ≡ slot_count joined 1 8 0
handle_publisher_disconnect-slot_count_example =
    handle_publisher_disconnect-slot_count system 7 joined 1 8 0 (omega arith) closes
