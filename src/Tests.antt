-- ===== src/Tests.antt =====
-- Concrete states and messages, and runs of the theorems on them.
pub mod Memory
pub mod Clients
pub mod Delivery
pub mod Loops
pub mod Serve
pub mod System
pub mod Tables
use drive_bus.Prelude.{ℕ, List, [], ◌∷◌, Option, none, some, false, true, update}
use drive_bus.Layout.{MessageDescriptor, invalid_index}
use drive_bus.Shared.{SharedData, initialize_shared_data, initialize_chunk_usage_tracker}
use drive_bus.Publisher.{Publisher}
use drive_bus.Outbox.{Outbox, publish}

-- Shared data of zeros, as a new mapping is.
abbrev pub zero_data : SharedData
zero_data = record {
  descriptor_read_indices = λ k. 0;
  descriptor_write_index = 0;
  desc_ring = λ i. record { offset = 0; len = 0 };
  head = λ c. 0;
  tail = λ c. 0;
  chunk_reference_counts = λ i. 0;
  pool = λ x. 0;
  is_in_use = λ c i. false;
}

-- The same, initialized.
abbrev pub new_data : SharedData
new_data = initialize_chunk_usage_tracker (initialize_shared_data zero_data)

-- The write index at 5, and one subscriber, in slot 2, three descriptors behind.
abbrev pub ring_data : SharedData
ring_data = record zero_data {
  descriptor_read_indices = update (λ k. invalid_index) 2 2;
  descriptor_write_index = 5;
}

abbrev pub one_subscriber : Publisher
one_subscriber = record {
  data_available_event_fds = 30 ∷ [];
  slot_by_event_fd = (30, 2) ∷ [];
  event_fd_by_slot = λ k. 30;
  seq = 1;
  shared_data = ring_data;
  closed = [];
}

abbrev pub empty_outbox : Outbox
empty_outbox = record {
  pending_messages = [];
  in_flight_message = none;
  run_thread_active = true;
  next_ticket = 0;
  completions = [];
}
