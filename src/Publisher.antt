-- ===== src/Publisher.antt =====
-- `class Publisher` of include/publisher.hpp: the state that its data path and its control messages
-- use, and its enumerations. The asynchronous queue is in Outbox.
-- A file descriptor is its number. What the operating system answers to an event write is an
-- argument, `signal fd`: whether `signal_eventfd(fd)` returns true.
pub mod Tracking
pub mod Release
pub mod Publish
pub mod Control
pub mod Sync
pub mod Readiness
pub mod Initial
use drive_bus.Prelude.{ℕ, List, [], ◌∷◌, Option, none, some, Bool, ◌==◌, if◌then◌else◌}
use drive_bus.Shared.{SharedData}

pub data PublishAttempt : Type 0 where
  succeeded blocked : PublishAttempt

pub data RunError : Type 0 where
  epoll_wait_failed unexpected_epoll_timeout publish_work_event_read_failed : RunError
  message_size_class_invalid publish_attempt_failed publish_work_reschedule_failed : RunError
  space_available_event_read_failed publish_work_resume_failed : RunError
  chunk_reference_release_failed dead_subscriber_reap_failed broker_closed : RunError
  broker_control_message_too_short broker_control_message_processing_failed : RunError
  dynamic_subscriber_registration_failed publish_work_broker_resume_failed : RunError
  data_available_signal_failed shutdown_event_read_failed worker_exception : RunError

pub data PublishError : Type 0 where
  mode_mismatch payload_too_large worker_exited notification_failed timeout : PublishError
  event_wait_failed broker_unavailable data_path_failed : PublishError

pub data SubscriberTrackingError : Type 0 where
  slot_out_of_range slot_already_tracked event_fd_already_tracked : SubscriberTrackingError

pub record SubscriberRegistration : Type 0 where
  pub data_available_event_fd : ℕ
  pub slot_index : ℕ

-- `slot_by_event_fd` is `subscriber_slot_index_by_data_available_event_fd_`, `event_fd_by_slot` is
-- `data_available_event_fd_by_subscriber_slot_index_`. `closed` holds the descriptors that the
-- operations have closed, the latest first.
pub record Publisher : Type 0 where
  pub data_available_event_fds : List ℕ
  pub slot_by_event_fd : List (ℕ × ℕ)
  pub event_fd_by_slot : ℕ → ℕ
  pub seq : ℕ
  pub shared_data : SharedData
  pub closed : List ℕ

-- `map_sync_run_error_to_publish_error`. `RunError::None` is not among the errors here: the function
-- ends the program on it, and is called on errors only.
unfoldable pub map_sync_run_error_to_publish_error : RunError → PublishError
map_sync_run_error_to_publish_error space_available_event_read_failed = event_wait_failed
map_sync_run_error_to_publish_error broker_closed = broker_unavailable
map_sync_run_error_to_publish_error broker_control_message_too_short = broker_unavailable
map_sync_run_error_to_publish_error broker_control_message_processing_failed = broker_unavailable
map_sync_run_error_to_publish_error dynamic_subscriber_registration_failed = broker_unavailable
map_sync_run_error_to_publish_error chunk_reference_release_failed = broker_unavailable
map_sync_run_error_to_publish_error dead_subscriber_reap_failed = broker_unavailable
map_sync_run_error_to_publish_error _ = data_path_failed

-- `unordered_map::find`
unfoldable pub find_slot : List (ℕ × ℕ) → ℕ → Option ℕ
find_slot [] fd = none
find_slot ((k, v) ∷ m) fd = if k == fd then some v else find_slot m fd

-- `unordered_map::erase` of a key; a key stands once in the map.
unfoldable pub erase_slot : List (ℕ × ℕ) → ℕ → List (ℕ × ℕ)
erase_slot [] fd = []
erase_slot ((k, v) ∷ m) fd = if k == fd then m else (k, v) ∷ erase_slot m fd

-- `erase(data_available_event_fds_, fd)`: every occurrence.
unfoldable pub erase_fd : List ℕ → ℕ → List ℕ
erase_fd [] fd = []
erase_fd (x ∷ xs) fd = if x == fd then erase_fd xs fd else x ∷ erase_fd xs fd
