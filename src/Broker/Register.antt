-- ===== src/Broker/Register.antt =====
-- The registration of subscribers and publishers: the cases `SubscriberTopicRegistration` and
-- `PublisherTopicRegistration` of `main` in src/broker.cpp.
use drive_bus.Prelude.{
  ℕ, ◌+◌, ◌%◌, List, [], ◌∷◌, ◌++◌, map, Option, none, some, Bool, true, false, not, ltb, ◌==◌,
  ◌||◌, if◌then◌else◌, length, get_or, find, find_or, put, insert,
}
use drive_bus.Bytes.{to_bytes}
use drive_bus.Layout.{max_subscribers}
use drive_bus.Protocol.{
  Cmsg, Metadata, slot_packet, subscriber_event_fd_and_slot, batch_packet, topics_of_packet,
  max_attachments_per_batch,
}
use drive_bus.Broker.{
  Broker, subscriber, publisher, SubscriberAttachment, System, send, and_then, update2,
  attachment_id_mod, init_available_subscriber_slots,
}

-- `next_attachment_id++` and the test that it has not wrapped.
unfoldable pub count_attachment :
    Broker → SubscriberAttachment → Option (Broker × SubscriberAttachment)
count_attachment b a =
    let next = (b.next_attachment_id + 1) % attachment_id_mod in
    if next == 0 then none else some (record b { next_attachment_id = next }, a)

-- The least free slot of a publisher goes to a subscriber, and the publisher is told. The heap is not
-- empty where the code takes its top.
unfoldable pub attach_slot :
    System → ℕ → ℕ → ℕ → ℕ → Broker → List ℕ → Option (Broker × SubscriberAttachment)
attach_slot sys topic publisher_fd space_fd data_fd b [] = none
attach_slot sys topic publisher_fd space_fd data_fd b (slot ∷ heap) =
    and_then
      (send sys
        (record b { available_slots = update2 b.available_slots topic publisher_fd (some heap) })
        publisher_fd (slot_packet subscriber_event_fd_and_slot slot) (data_fd ∷ []))
      (λ b'. count_attachment b' (record {
        attachment_id = b.next_attachment_id;
        topic_id = topic;
        publisher_fd = publisher_fd;
        space_available_event_fd = space_fd;
        data_available_event_fd = data_fd;
        slot_index = slot;
      }))

-- A registration under way: the attachments so far and the regions of their publishers.
abbrev pub Registering : Type 0
Registering = Broker × List SubscriberAttachment × List ℕ

abbrev pub add_attachment :
    List SubscriberAttachment → List ℕ → ℕ → Broker × SubscriberAttachment → Option Registering
add_attachment atts shms shm_fd (b, a) = some (b, atts ++ a ∷ [], shms ++ shm_fd ∷ [])

unfoldable pub attach_publisher : System → ℕ → ℕ → Registering → Option Registering
attach_publisher sys topic publisher_fd (b, atts, shms) =
    and_then (find publisher_fd b.shm_fds) (λ shm_fd.
      and_then (b.available_slots topic publisher_fd) (λ heap.
        and_then (find publisher_fd b.space_event_fds) (λ space_fd.
          and_then (sys.event_fd b.next_attachment_id) (λ data_fd.
            and_then (attach_slot sys topic publisher_fd space_fd data_fd b heap)
              (add_attachment atts shms shm_fd)))))

unfoldable pub attach_publishers : System → ℕ → List ℕ → Registering → Option Registering
attach_publishers sys topic [] r = some r
attach_publishers sys topic (q ∷ qs) r =
    and_then (attach_publisher sys topic q r) (attach_publishers sys topic qs)

-- `subscriber_fds_by_topic_id[topic_id].emplace_back(fd)`
abbrev pub join_topic : Broker → ℕ → ℕ → Broker
join_topic b topic fd = record b {
  subscribers_of_topic =
      put topic (find_or (find topic b.subscribers_of_topic) [] ++ fd ∷ []) b.subscribers_of_topic;
}

unfoldable pub register_topic : System → ℕ → ℕ → Registering → Option Registering
register_topic sys fd topic (b, atts, shms) = elim (find topic b.publishers_of_topic) [
  | none ↦ some (join_topic b topic fd, atts, shms)
  | some qs ↦ attach_publishers sys topic qs (join_topic b topic fd, atts, shms)
]

unfoldable pub register_topics : System → ℕ → List ℕ → Registering → Option Registering
register_topics sys fd [] r = some r
register_topics sys fd (t ∷ ts) r = and_then (register_topic sys fd t r) (register_topics sys fd ts)

abbrev pub metadata_of : SubscriberAttachment → Metadata
metadata_of a = record {
  attachment_id = a.attachment_id;
  topic_id = a.topic_id;
  slot_index = a.slot_index;
}

-- The descriptors of a batch, three to an attachment.
unfoldable pub batch_fds : List SubscriberAttachment → List ℕ → List ℕ
batch_fds [] shms = []
batch_fds (a ∷ atts) [] = []
batch_fds (a ∷ atts) (shm_fd ∷ shms) =
    shm_fd ∷ a.space_available_event_fd ∷ a.data_available_event_fd ∷ batch_fds atts shms

unfoldable pub send_subscriber_attachment_batch_message :
    System → Broker → ℕ → List SubscriberAttachment → List ℕ → Option Broker
send_subscriber_attachment_batch_message sys b fd atts shms =
    if not (length shms == length atts) || ltb max_attachments_per_batch (length atts)
    then none
    else send sys b fd (batch_packet (map metadata_of atts)) (batch_fds atts shms)

unfoldable pub finish_subscriber : System → ℕ → Registering → Option Broker
finish_subscriber sys fd (b, atts, shms) =
    and_then (send_subscriber_attachment_batch_message sys b fd atts shms)
      (λ b'. some (record b' { attachments = insert fd atts b'.attachments }))

-- `SubscriberTopicRegistration` from the client `fd`.
unfoldable pub register_subscriber : System → ℕ → List ℕ → Broker → Option Broker
register_subscriber sys fd bytes b = and_then (topics_of_packet bytes) (λ topics.
    and_then
      (register_topics sys fd topics (
        record b {
          topics_of_subscriber = insert fd topics b.topics_of_subscriber;
          roles = insert fd subscriber b.roles;
        },
        [],
        [],
      ))
      (finish_subscriber sys fd))

-- One subscriber that waits for the topic is attached to a new publisher.
unfoldable pub attach_subscriber : System → ℕ → ℕ → ℕ → ℕ → ℕ → Broker → Option Broker
attach_subscriber sys topic fd shm_fd space_fd subscriber_fd b =
    and_then (sys.event_fd b.next_attachment_id) (λ data_fd.
      and_then (b.available_slots topic fd) (λ heap.
        and_then (attach_slot sys topic fd space_fd data_fd b heap) (λ r.
          and_then
            (send_subscriber_attachment_batch_message sys r.0 subscriber_fd (r.1 ∷ [])
              (shm_fd ∷ []))
            (λ b'. and_then (find subscriber_fd b'.attachments) (λ atts.
              some (record b' {
                attachments = put subscriber_fd (atts ++ r.1 ∷ []) b'.attachments;
              }))))))

unfoldable pub attach_subscribers : System → ℕ → ℕ → ℕ → ℕ → List ℕ → Broker → Option Broker
attach_subscribers sys topic fd shm_fd space_fd [] b = some b
attach_subscribers sys topic fd shm_fd space_fd (x ∷ xs) b =
    and_then (attach_subscriber sys topic fd shm_fd space_fd x b)
      (attach_subscribers sys topic fd shm_fd space_fd xs)

-- The tests that a key is new.
abbrev pub is_none {ℓ} : {A : Type ℓ} → Option A → Bool
is_none none = true
is_none (some a) = false

-- From the topic on. The subscribers of the topic are counted for the publisher, then attached.
unfoldable pub open_topic : System → ℕ → ℕ → ℕ → ℕ → List ℕ → Broker → Option Broker
open_topic sys topic fd shm_fd space_fd waiting b =
    if ltb max_subscribers (length waiting)
    then none
    else and_then (send sys b fd (to_bytes 4 (length waiting)) []) (λ b'.
      and_then (attach_subscribers sys topic fd shm_fd space_fd waiting b') (λ b''.
        some (record b'' {
          publishers_of_topic =
              put topic (find_or (find topic b''.publishers_of_topic) [] ++ fd ∷ [])
                b''.publishers_of_topic;
        })))

unfoldable pub register_publisher_fds : System → ℕ → ℕ → List ℕ → Broker → Option Broker
register_publisher_fds sys fd topic [] b = none
register_publisher_fds sys fd topic (shm_fd ∷ []) b = none
register_publisher_fds sys fd topic (shm_fd ∷ space_fd ∷ rest) b =
    if not (is_none (find fd b.shm_fds))
      || not (is_none (find fd b.space_event_fds))
      || not (is_none (b.available_slots topic fd))
    then none
    else open_topic sys topic fd shm_fd space_fd (find_or (find topic b.subscribers_of_topic) [])
        (record b {
          shm_fds = insert fd shm_fd b.shm_fds;
          space_event_fds = insert fd space_fd b.space_event_fds;
          available_slots =
              update2 b.available_slots topic fd (some (init_available_subscriber_slots []));
          roles = insert fd publisher b.roles;
        })

-- `PublisherTopicRegistration` from the client `fd`. The code does not test the size of the record:
-- `stale` is what the buffer held at the place of the topic before.
unfoldable pub register_publisher : System → ℕ → List ℕ → ℕ → Option Cmsg → Broker → Option Broker
register_publisher sys fd bytes stale none b = none
register_publisher sys fd bytes stale (some c) b =
    if not c.is_rights || not (c.fd_data_size == 8)
    then none
    else register_publisher_fds sys fd (get_or bytes 1 stale) c.fds b
