-- ===== src/Publisher/Readiness.antt =====
-- `can_publish_next_message` of src/publisher.cpp: whether the next message of the queue has room.
pub mod Agreement
use drive_bus.Prelude.{ℕ, ◌+◌, ◌%◌, Option, none, some, Bool, if◌then◌else◌}
use drive_bus.Layout.{word_mod, find_size_class}
use drive_bus.Shared.{SharedData}
use drive_bus.FreeList.{no_free_chunk}
use drive_bus.Ring.{find_slowest_read_index, is_blocked}
use drive_bus.Publisher.{RunError, message_size_class_invalid}
use drive_bus.Publisher.Publish.{message_header_size_bytes}

pub data PublishReadiness : Type 0 where
  no_message blocked ready : PublishReadiness

pub data ReadinessResult : Type 0 where
  readiness : PublishReadiness → ReadinessResult
  failed : RunError → ReadinessResult

-- From the size class on.
unfoldable pub readiness_in_class : SharedData → Option ℕ → ReadinessResult
readiness_in_class s none = failed message_size_class_invalid
readiness_in_class s (some size_class) =
    if is_blocked (find_slowest_read_index s) s.descriptor_write_index
    then readiness blocked
    else if no_free_chunk s size_class
    then readiness blocked
    else readiness ready

-- `next_size` is the size of the payload in flight, or else of the oldest one that waits.
unfoldable pub can_publish_next_message : SharedData → Option ℕ → ReadinessResult
unfolding readiness_in_class
can_publish_next_message s none = readiness no_message
can_publish_next_message s (some next_size) =
    readiness_in_class s (find_size_class ((message_header_size_bytes + next_size) % word_mod))
