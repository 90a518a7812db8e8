-- ===== src/Tests/Clients.antt =====
-- Runs on the publisher's queue and the subscriber's messages and descriptors.
use native.Mathlib.Omega.{arith}
use drive_bus.Prelude.{ℕ, ◌+◌, ◌≡◌, ◌↔◌, List, [], ◌∷◌, some, Bool, true, false, refl, count}
use drive_bus.Protocol.{Packet}
use drive_bus.Publisher.{PublishAttempt}
use drive_bus.Publisher.Publish.{attempt, try_publish_one}
use drive_bus.Publisher.Readiness.{can_publish_next_message, readiness, PublishReadiness}
use drive_bus.Publisher.Readiness.Agreement.{try_publish_one-blocked_iff}
use drive_bus.Publisher.Sync.{
  Turn, space_available, Wait, interrupted, timed_out, publish_sync, waiting,
}
use drive_bus.Publisher.Sync.Deadline.{publish_sync-ends}
use drive_bus.Outbox.{Outbox, PendingMessage, InFlightState, publish}
use drive_bus.Outbox.Enqueue.{CallEffect, publish-CallEffect}
use drive_bus.Outbox.Accounts.{Accounted, publish-Accounted}
use drive_bus.Outbox.Worker.{Surroundings, handle_publish_work_event}
use drive_bus.Outbox.Work.{Publishing, publish-Publishing, handle_publish_work_event-Accounted}
use drive_bus.Subscriber.Control.{Subscriber, Answer, handle_packet, received_fds}
use drive_bus.Subscriber.Control.Descriptors.{accounted, handle_packet-accounted}
use drive_bus.Outbox.{PublishCompletion, complete_outstanding_messages}
use drive_bus.Outbox.Accounts.{completed, count_ticket}
use drive_bus.Outbox.Shutdown.{complete_outstanding_messages-once}
use drive_bus.Shared.{SharedData}
use drive_bus.Publisher.Publish.{write_message}
use drive_bus.Subscriber.{PublisherAttachment, no_seq}
use drive_bus.Prelude.{ltb, if◌then◌else◌}
use drive_bus.Tests.{zero_data}
use drive_bus.Tests.{empty_outbox, one_subscriber}

empty_outbox-Accounted : Accounted empty_outbox
empty_outbox-Accounted = record {
  bounded = omega arith;
  once = λ t. ground arith;
  fifo = omega arith;
  in_order = tt;
}

abbrev payload : List ℕ
payload = 1 ∷ 2 ∷ 3 ∷ []

publish-CallEffect_example : CallEffect empty_outbox (publish true true empty_outbox payload)
publish-CallEffect_example = publish-CallEffect true true empty_outbox payload

publish-Accounted_example : Accounted (publish true true empty_outbox payload).0
publish-Accounted_example = publish-Accounted true true empty_outbox payload empty_outbox-Accounted

abbrev sending : PendingMessage
sending = record { payload = payload; promise = 0 }

abbrev busy_outbox : Outbox
busy_outbox = record empty_outbox {
  in_flight_message = some (record { message = sending; state = InFlightState.publishing });
  next_ticket = 1;
}

publish-Publishing_example : Publishing (publish true true busy_outbox payload).0 sending
publish-Publishing_example = publish-Publishing true true busy_outbox payload sending refl

-- Another thread publishes during the first round.
abbrev surroundings : Surroundings
surroundings = record {
  drained = true;
  signal = λ round fd. true;
  others = λ round s. s;
  calls = λ round. record { signalled = true; payload = payload } ∷ [];
  rescheduled = true;
}

handle_publish_work_event-Accounted_example :
    Accounted
      (handle_publish_work_event surroundings true one_subscriber
        (publish true true empty_outbox payload).0).outbox
handle_publish_work_event-Accounted_example =
    handle_publish_work_event-Accounted surroundings true one_subscriber
      (publish true true empty_outbox payload).0
      (publish-Accounted true true empty_outbox payload empty_outbox-Accounted)

try_publish_one-blocked_iff_example :
    ((try_publish_one (λ fd. true) one_subscriber payload).1 ≡ attempt PublishAttempt.blocked) ↔ (
      can_publish_next_message one_subscriber.shared_data (some 3)
      ≡ readiness PublishReadiness.blocked)
try_publish_one-blocked_iff_example =
    try_publish_one-blocked_iff (λ fd. true) one_subscriber payload (omega arith)

-- A round that an interrupted wait ends, and one at whose end the time is over.
abbrev turn : Bool → Wait → Turn
turn late wait = record {
  late = λ n. false;
  late_before_attempt = false;
  late_after_attempt = late;
  drained = λ n. true;
  records = λ n. [];
  others = λ s. s;
  signal = λ fd. true;
  wait = wait;
}

publish_sync-ends_example : ¬ (
    publish_sync true
      (turn false interrupted ∷ turn true timed_out ∷ [])
      payload
      one_subscriber
      (space_available ∷ [])
    ≡ waiting)
publish_sync-ends_example =
    publish_sync-ends true (turn false interrupted ∷ []) (turn true timed_out) payload
      one_subscriber (space_available ∷ []) refl

-- A subscriber without attachments, and a batch of one entry with its three descriptors.
abbrev new_subscriber : Subscriber
new_subscriber = record { attachment_by_event_fd = []; event_fd_by_attachment_id = []; closed = [] }

abbrev batch : Packet
batch = record {
  bytes = 5 ∷ 1 ∷ 0 ∷ 0 ∷ 0 ∷ 0 ∷ 0 ∷ 0 ∷ 0 ∷ 1 ∷ 0 ∷ 0 ∷ 0 ∷ 0 ∷ [];
  truncated = false;
  cmsg = some (record { is_rights = true; fd_data_size = 12; fds = 20 ∷ 21 ∷ 40 ∷ [] });
}

abbrev accepted : ℕ → Answer
accepted n = record { mapped = true; watched = true }

handle_packet-accounted_example :
    accounted (handle_packet accepted batch new_subscriber).0 40
    ≡ accounted new_subscriber 40 + count 40 (received_fds batch.cmsg)
handle_packet-accounted_example = handle_packet-accounted accepted batch new_subscriber 40

complete_outstanding_messages-once_example :
    count_ticket 0 (
      completed
        (complete_outstanding_messages PublishCompletion.worker_stopped
          (publish true true empty_outbox payload).0).completions)
    ≡ (if ltb 0 (publish true true empty_outbox payload).0.next_ticket then 1 else 0)
complete_outstanding_messages-once_example =
    complete_outstanding_messages-once PublishCompletion.worker_stopped
      (publish true true empty_outbox payload).0 0
      (publish-Accounted true true empty_outbox payload empty_outbox-Accounted)

-- A message of three bytes in the first chunk, which the subscriber in slot 2 holds alone.
abbrev message_data : SharedData
message_data = record zero_data {
  pool = write_message (λ x. 0) 0 7 payload;
  chunk_reference_counts = λ i. 4;
  is_in_use = λ c i. true;
}

abbrev pub attachment : PublisherAttachment
attachment = record {
  topic_id = 1;
  shm_fd = 20;
  space_available_event_fd = 21;
  data_available_event_fd = 40;
  slot_index = 2;
  subscriber_read_index = 15;
  expected_seq = no_seq;
}
