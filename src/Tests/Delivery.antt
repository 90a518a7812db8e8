-- ===== src/Tests/Delivery.antt =====
-- Runs on a well-formed mapping: a publisher with one subscriber, and a message for it.
use native.Mathlib.Omega.{arith}
use drive_bus.Prelude.{
  ℕ, ◌<◌, ◌≡◌, ◌⊎◌, inl, inr, List, [], ◌∷◌, ◌++◌, some, none, Bool, true, refl, update,
}
use drive_bus.Layout.{invalid_index, find_size_class}
use drive_bus.Mask.{test_bit}
use drive_bus.Shared.{
  SharedData, fill, initialize_shared_data, initialize_chunk_usage_tracker, initial_heads,
  initial_tails,
}
use drive_bus.Publisher.{Publisher, PublishAttempt, publish_attempt_failed, find_slot, erase_fd}
use drive_bus.Publisher.Publish.{
  attempt, failed, try_publish_one, publish_sized, publish_in_class, finish_publish,
  publish_descriptor, fill_chunk, reference_mask, signal_all,
}
use drive_bus.FreeList.{take_chunk, set_in_use}
use drive_bus.Publisher.Readiness.{
  can_publish_next_message, readiness, readiness_in_class, PublishReadiness,
}
use drive_bus.Publisher.Readiness.Agreement.{try_publish_one-blocked_iff}
use drive_bus.Publisher.Release.{reap_dead_subscribers}
use drive_bus.Ring.{find_slowest_read_index, scan, is_blocked}
use drive_bus.Subscriber.{PublisherAttachment, no_seq, Reading, read_data}
use drive_bus.Subscriber.Events.{Surroundings, reading, handle_data_available_event}
use drive_bus.Sound.{Sound, Described}
use drive_bus.Sound.Init.{initialize-Sound, track-Sound}
use drive_bus.Sound.Attempt.{try_publish_one-Sound, try_publish_one-apart}
use drive_bus.Sound.Reap.{reap_dead_subscribers-Sound}
use drive_bus.Sound.Read.{Sane, read_data-Sane}
use drive_bus.Delivery.{queue}
use drive_bus.Delivery.Attempt.{try_publish_one-answered}
use drive_bus.Delivery.Publish.{Served, try_publish_one-queue}
use drive_bus.Delivery.Event.{Quiet}
use drive_bus.Delivery.Drain.{Attached, Drained, handle_data_available_event-Drained}
use drive_bus.Tests.{zero_data, new_data}

zero_ring : (i : ℕ) → i < 16 → Described (zero_data.desc_ring i)
unfolding find_size_class
zero_ring i h = (0, omega arith, refl, (0, omega arith, refl))

initialize-Sound_example : Sound new_data
initialize-Sound_example = initialize-Sound zero_data zero_ring

-- A subscriber in slot 2.
abbrev pub joined_data : SharedData
joined_data = record new_data {
  descriptor_read_indices =
      update new_data.descriptor_read_indices 2 new_data.descriptor_write_index;
}

pub joined-Sound : Sound joined_data
joined-Sound = track-Sound new_data 2 (initialize-Sound zero_data zero_ring)

abbrev pub open_publisher : Publisher
open_publisher = record {
  data_available_event_fds = 30 ∷ [];
  slot_by_event_fd = (30, 2) ∷ [];
  event_fd_by_slot = λ k. 30;
  seq = 0;
  shared_data = joined_data;
  closed = [];
}

abbrev greeting : List ℕ
greeting = 7 ∷ 8 ∷ 9 ∷ []

abbrev answered : ℕ → Bool
answered fd = true

try_publish_one-Sound_example :
    Sound (try_publish_one answered open_publisher greeting).0.shared_data
try_publish_one-Sound_example = try_publish_one-Sound answered open_publisher greeting joined-Sound

pub slots_known : reference_mask (30 ∷ []) ((30, 2) ∷ []) 0 ≡ some 4
unfolding reference_mask find_slot
slots_known = refl

all_answered : signal_all answered (30 ∷ []) ≡ true
unfolding signal_all
all_answered = refl

pub third_bit : test_bit 4 2 ≡ true
unfolding test_bit
third_bit = refl

pub open-Served : Served open_publisher 2 0
unfolding initialize_shared_data initialize_chunk_usage_tracker
open-Served = record { active = omega arith; waiting = tt; next = refl }

try_publish_one-answered_example :
    ¬ ((try_publish_one answered open_publisher greeting).1 ≡ failed publish_attempt_failed)
try_publish_one-answered_example =
    try_publish_one-answered answered open_publisher greeting 4 publish_attempt_failed joined-Sound
      (omega arith) slots_known all_answered

try_publish_one-queue_example :
    (try_publish_one answered open_publisher greeting
      ≡ (open_publisher, attempt PublishAttempt.blocked))
    ⊎ (((try_publish_one answered open_publisher greeting).1 ≡ attempt PublishAttempt.succeeded)
        × (queue (try_publish_one answered open_publisher greeting).0.shared_data 2
            ≡ queue joined_data 2 ++ greeting ∷ [])
        × Served (try_publish_one answered open_publisher greeting).0 2 0)
try_publish_one-queue_example =
    try_publish_one-queue answered open_publisher greeting 4 2 0 joined-Sound (omega arith)
      slots_known all_answered (omega arith) third_bit (omega arith) (omega arith) open-Served

-- The mapping with the message published.
abbrev sent_publisher : Publisher
sent_publisher = (try_publish_one answered open_publisher greeting).0

not_blocked :
    ¬ ((try_publish_one answered open_publisher greeting).1 ≡ attempt PublishAttempt.blocked)
unfolding can_publish_next_message readiness_in_class find_size_class find_slowest_read_index scan
    is_blocked initialize_shared_data initialize_chunk_usage_tracker fill initial_heads
    initial_tails
not_blocked e =
    let ready : can_publish_next_message joined_data (some 3) ≡ readiness PublishReadiness.ready =
      refl in
    let same : can_publish_next_message joined_data (some 3) ≡ readiness PublishReadiness.blocked =
      (try_publish_one-blocked_iff answered open_publisher greeting (omega arith)).0 e in
    absurd (ground arith)

sent-Served : Served sent_publisher 2 0
sent-Served = elim try_publish_one-queue_copy [
  | inl e ↦ absurd (not_blocked (rw e refl))
  | inr (ok, q, served) ↦ served
]
  where
    try_publish_one-queue_copy :
        (try_publish_one answered open_publisher greeting
          ≡ (open_publisher, attempt PublishAttempt.blocked))
        ⊎ (((try_publish_one answered open_publisher greeting).1 ≡ attempt PublishAttempt.succeeded)
            × (queue (try_publish_one answered open_publisher greeting).0.shared_data 2
                ≡ queue joined_data 2 ++ greeting ∷ [])
            × Served (try_publish_one answered open_publisher greeting).0 2 0)
    try_publish_one-queue_copy =
        try_publish_one-queue answered open_publisher greeting 4 2 0 joined-Sound (omega arith)
          slots_known all_answered (omega arith) third_bit (omega arith) (omega arith) open-Served

sent-Sound : Sound sent_publisher.shared_data
sent-Sound = try_publish_one-Sound answered open_publisher greeting joined-Sound

-- The subscriber's side of slot 2.
abbrev pub attachment : PublisherAttachment
attachment = record {
  topic_id = 1;
  shm_fd = 20;
  space_available_event_fd = 21;
  data_available_event_fd = 30;
  slot_index = 2;
  subscriber_read_index = invalid_index;
  expected_seq = no_seq;
}

abbrev quiet : Surroundings
quiet = record { drained = true; signal = λ round i. true; others = λ round s. s }

quiet-Quiet : Quiet quiet
quiet-Quiet = record { drained = refl; answered = λ round i. refl; alone = λ round s. refl }

sent-Attached : Attached sent_publisher.shared_data 2 0 attachment
sent-Attached = record {
  at_slot = refl;
  low = omega arith;
  active = sent-Served.active;
  place = inl refl;
  expecting = inl refl;
}

handle_data_available_event-Drained_example :
    (r : Reading) × (handle_data_available_event quiet 2
        (some attachment)
        sent_publisher.shared_data
      ≡ some (reading r))
    × Drained sent_publisher.shared_data 2 0 r
handle_data_available_event-Drained_example =
    handle_data_available_event-Drained quiet 0 attachment sent_publisher.shared_data 2 0
      quiet-Quiet sent-Sound sent-Served.waiting sent-Attached

-- The subscriber has died with the message unread.
abbrev left_publisher : Publisher
left_publisher = record open_publisher { shared_data = sent_publisher.shared_data }

left_known : find_slot ((30, 2) ∷ []) 30 ≡ some 2
unfolding find_slot
left_known = refl

reap_dead_subscribers-Sound_example :
    (q : Publisher) × (reap_dead_subscribers left_publisher 2 ≡ some (q, none))
    × Sound q.shared_data
    × (q.shared_data.descriptor_read_indices 2 ≡ invalid_index)
    × (q.data_available_event_fds ≡ erase_fd (30 ∷ []) 30)
    × (q.closed ≡ 30 ∷ [])
reap_dead_subscribers-Sound_example =
    reap_dead_subscribers-Sound left_publisher 2 sent-Sound (omega arith)
      (λ e. absurd (omega (arith, sent-Served.active))) left_known

first_used : sent_publisher.shared_data.is_in_use 0 0 ≡ true
unfolding try_publish_one publish_sized publish_in_class finish_publish publish_descriptor
    fill_chunk take_chunk set_in_use find_size_class find_slowest_read_index scan is_blocked
    initialize_shared_data initialize_chunk_usage_tracker fill initial_heads initial_tails
    reference_mask find_slot
first_used = refl

-- A second message is published while the first is unread.
try_publish_one-apart_example :
    (try_publish_one answered sent_publisher greeting).0.shared_data.pool 8
    ≡ sent_publisher.shared_data.pool 8
try_publish_one-apart_example =
    try_publish_one-apart answered sent_publisher greeting 0 0 8 sent-Sound (omega arith)
      (omega arith) first_used (omega arith) (omega arith)

abbrev placed_attachment : PublisherAttachment
placed_attachment = record attachment { subscriber_read_index = 0 }

read_data-Sane_example :
    Sane (read_data answered 0 (joined_data.desc_ring 0 ∷ []) placed_attachment joined_data)
read_data-Sane_example =
    read_data-Sane answered 0 (joined_data.desc_ring 0 ∷ []) placed_attachment joined_data
      (joined-Sound.ring 0 (omega arith), tt) (record { slot = omega arith; index = omega arith })
      joined-Sound
