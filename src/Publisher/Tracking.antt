-- ===== src/Publisher/Tracking.antt =====
-- `Publisher::track_subscriber` of src/publisher.cpp.
use drive_bus.Prelude.{ℕ, [], ◌∷◌, ◌++◌, Option, none, some, not, leb, ◌==◌, if◌then◌else◌, update}
use drive_bus.Layout.{max_subscribers, invalid_index}
use drive_bus.Publisher.{
  Publisher, SubscriberRegistration, SubscriberTrackingError, slot_out_of_range,
  slot_already_tracked, event_fd_already_tracked, find_slot,
}

-- The guard of the registration's descriptor closes it on every error.
abbrev pub close_event_fd : Publisher → ℕ → Publisher
close_event_fd p fd = record p { closed = fd ∷ p.closed }

-- The writes of the success branch.
abbrev pub add_subscriber : Publisher → ℕ → ℕ → Publisher
add_subscriber p fd slot = record p {
  slot_by_event_fd = (fd, slot) ∷ p.slot_by_event_fd;
  data_available_event_fds = p.data_available_event_fds ++ fd ∷ [];
  event_fd_by_slot = update p.event_fd_by_slot slot fd;
  shared_data = record p.shared_data {
    descriptor_read_indices =
        update p.shared_data.descriptor_read_indices slot p.shared_data.descriptor_write_index;
  };
}

-- `unordered_map::insert` inserts unless the key is there; `found` is the value at the key.
insert_subscriber : Publisher → ℕ → ℕ → Option ℕ → Publisher × Option SubscriberTrackingError
insert_subscriber p fd slot (some found) = (close_event_fd p fd, some event_fd_already_tracked)
insert_subscriber p fd slot none = (add_subscriber p fd slot, none)

-- The allocation failure that the code catches around `emplace_back` is not modelled.
unfoldable pub track_subscriber :
    Publisher → SubscriberRegistration → Publisher × Option SubscriberTrackingError
unfolding insert_subscriber
track_subscriber p r =
    if leb max_subscribers slot
    then (close_event_fd p fd, some slot_out_of_range)
    else if not (p.shared_data.descriptor_read_indices slot == invalid_index)
    then (close_event_fd p fd, some slot_already_tracked)
    else insert_subscriber p fd slot (find_slot p.slot_by_event_fd fd)
  where
    open r use {data_available_event_fd as fd, slot_index as slot}
