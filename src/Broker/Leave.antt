-- ===== src/Broker/Leave.antt =====
-- The departure of clients: `handle_subsciber_disconect` and `handle_publisher_disconnect` of
-- src/broker.cpp.
use drive_bus.Prelude.{ℕ, List, [], ◌∷◌, Option, none, some, ◌==◌, if◌then◌else◌, find, erase, put}
use drive_bus.Protocol.{slot_packet, subscriber_disconnected, publisher_disconnected_packet}
use drive_bus.Broker.{Broker, SubscriberAttachment, System, send, and_then, update2, emplace}

-- The publisher is told, the slot is free again, and the event descriptor is closed.
unfoldable pub release_attachment : System → SubscriberAttachment → Broker → Option Broker
release_attachment sys a b =
    and_then (send sys b a.publisher_fd (slot_packet subscriber_disconnected a.slot_index) [])
      (λ b'. and_then (b'.available_slots a.topic_id a.publisher_fd) (λ heap. some (record b' {
        available_slots =
            update2 b'.available_slots a.topic_id a.publisher_fd (some (emplace a.slot_index heap));
        closed = a.data_available_event_fd ∷ b'.closed;
      })))

unfoldable pub release_attachments : System → List SubscriberAttachment → Broker → Option Broker
release_attachments sys [] b = some b
release_attachments sys (a ∷ atts) b =
    and_then (release_attachment sys a b) (release_attachments sys atts)

-- The first occurrence of a descriptor leaves a list; `none` if there is none.
unfoldable pub remove : ℕ → List ℕ → Option (List ℕ)
remove fd [] = none
remove fd (x ∷ xs) =
    let rest = remove fd xs in if x == fd then some xs else and_then rest (λ ys. some (x ∷ ys))

unfoldable pub leave_topic : ℕ → ℕ → Broker → Option Broker
leave_topic fd topic b = and_then (find topic b.subscribers_of_topic) (λ fds.
    and_then (remove fd fds)
      (λ fds'. some (record b { subscribers_of_topic = put topic fds' b.subscribers_of_topic })))

unfoldable pub leave_topics : ℕ → List ℕ → Broker → Option Broker
leave_topics fd [] b = some b
leave_topics fd (t ∷ ts) b = and_then (leave_topic fd t b) (leave_topics fd ts)

unfoldable pub handle_subscriber_disconnect : System → ℕ → Broker → Option Broker
handle_subscriber_disconnect sys fd b = and_then (find fd b.attachments) (λ atts.
    and_then (find fd b.topics_of_subscriber) (λ topics.
      and_then (release_attachments sys atts b) (λ b'.
        and_then
          (leave_topics fd topics
            (record b' { attachments = erase fd b'.attachments; roles = erase fd b'.roles }))
          (λ b''. some (record b'' {
            topics_of_subscriber = erase fd b''.topics_of_subscriber;
            closed = fd ∷ b''.closed;
          })))))

-- `find_if` of the attachment to the publisher, and the list without it.
unfoldable pub take_attachment :
    ℕ → List SubscriberAttachment → Option (SubscriberAttachment × List SubscriberAttachment)
take_attachment publisher_fd [] = none
take_attachment publisher_fd (a ∷ atts) =
    let rest = take_attachment publisher_fd atts in
    if a.publisher_fd == publisher_fd
    then some (a, atts)
    else and_then rest (λ r. some (r.0, a ∷ r.1))

-- One subscriber of the topic is told, and its attachment goes.
unfoldable pub detach_subscriber : System → ℕ → ℕ → Broker → Option Broker
detach_subscriber sys publisher_fd subscriber_fd b =
    and_then (find subscriber_fd b.attachments) (λ atts.
      and_then (take_attachment publisher_fd atts) (λ r.
        and_then (send sys b subscriber_fd (publisher_disconnected_packet (r.0).attachment_id) [])
          (λ b'. some (record b' {
            attachments = put subscriber_fd r.1 b'.attachments;
            closed = (r.0).data_available_event_fd ∷ b'.closed;
          }))))

unfoldable pub detach_subscribers : System → ℕ → List ℕ → Broker → Option Broker
detach_subscribers sys publisher_fd [] b = some b
detach_subscribers sys publisher_fd (x ∷ xs) b =
    and_then (detach_subscriber sys publisher_fd x b) (detach_subscribers sys publisher_fd xs)

-- The topic whose publishers the descriptor is among, with those that remain: the first such topic.
unfoldable pub topic_of_publisher : ℕ → List (ℕ × List ℕ) → Option (ℕ × List ℕ)
topic_of_publisher fd [] = none
topic_of_publisher fd ((t, fds) ∷ m) = elim (remove fd fds) [
  | some rest ↦ some (t, rest)
  | none ↦ topic_of_publisher fd m
]

-- `publisher_fds_by_topic_id` without the publisher: the topic goes with its last publisher.
unfoldable pub set_publishers : ℕ → List ℕ → List (ℕ × List ℕ) → List (ℕ × List ℕ)
set_publishers topic [] m = erase topic m
set_publishers topic (x ∷ xs) m = put topic (x ∷ xs) m

-- What follows the messages to the subscribers.
unfoldable pub forget_publisher : ℕ → ℕ → List ℕ → ℕ → Broker → Option Broker
forget_publisher fd topic others shm_fd b = and_then (find fd b.space_event_fds) (λ space_fd.
    some (record b {
      publishers_of_topic = set_publishers topic others b.publishers_of_topic;
      shm_fds = erase fd b.shm_fds;
      available_slots = update2 b.available_slots topic fd none;
      space_event_fds = erase fd b.space_event_fds;
      roles = erase fd b.roles;
      closed = fd ∷ space_fd ∷ shm_fd ∷ b.closed;
    }))

-- The subscribers of the topic, if it has an entry.
unfoldable pub detach_all : System → ℕ → Broker → Option (List ℕ) → Option Broker
detach_all sys fd b none = some b
detach_all sys fd b (some xs) = detach_subscribers sys fd xs b

unfoldable pub handle_publisher_disconnect : System → ℕ → Broker → Option Broker
handle_publisher_disconnect sys fd b = and_then (find fd b.shm_fds) (λ shm_fd.
    and_then (topic_of_publisher fd b.publishers_of_topic) (λ t.
      and_then (b.available_slots t.0 fd) (λ heap.
        and_then (detach_all sys fd b (find t.0 b.subscribers_of_topic))
          (forget_publisher fd t.0 t.1 shm_fd))))
