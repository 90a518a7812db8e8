-- ===== src/Lib.antt =====
-- Verification of DriveBus, a publish/subscribe bus for processes of one machine: publishers write
-- messages into shared memory, subscribers read them there, and a broker brings the two together.
--
-- The parts of the program and the files that model them:
--  * The shared mapping, include/shared_memory_layout.hpp and include/shared_memory_layout_helpers.hpp:
--    Layout (constants, size classes, chunks), Bytes (the pool `data` as a map of bytes, 32-bit words in
--    little endian), Shared (`SharedData` and its initialization), FreeList (the linked list of free
--    chunks of a class), Ring (the ring of descriptors, its indices and the backpressure test), Mask
--    (the bits of `chunk_reference_counts`), References (dropping one reference).
--  * `Publisher`, include/publisher.hpp and src/publisher.cpp: Publisher (state and errors),
--    Publisher/Tracking (`track_subscriber`), Publisher/Publish (`try_publish_one`), Publisher/Release
--    (`release_chunk_references_in_descriptor_range`, `reap_dead_subscribers`), Publisher/Control (the
--    broker's records), Publisher/Readiness (`can_publish_next_message`), Publisher/Sync (the synchronous
--    `publish`), Outbox (the asynchronous `publish`), Outbox/Worker (`handle_publish_work_event`),
--    Outbox/Events (`handle_space_available_event`, `handle_broker_control_event`), Outbox/Run (the event
--    loop `run` and the thread around it), Publisher/Initial (the registrations of the first subscribers,
--    with `receive_packet_with_fd` of src/fd_helpers.cpp).
--  * `Subscriber`, include/subscriber.hpp and src/subscriber.cpp: Subscriber (`read_data`),
--    Subscriber/Events (`consume_contiguous_messages`, `handle_data_available_event`),
--    Subscriber/Control (the broker's records, attachments and their descriptors), Subscriber/Calls
--    (`subscribe` and `run`).
--  * The broker, broker.cpp: Broker (its tables), Broker/Register (registrations), Broker/Leave
--    (disconnections), Broker/Serve (the event loop of `main`, from accept to shutdown), Broker/Slots (how
--    often a slot stands in the tables).
--  * The records between them, include/broker_protocol.hpp: Protocol.
--  * How publisher and subscribers work on one mapping: Sound (the mapping is well-formed: free lists,
--    descriptors, indices, marks) and below it what each operation does to it; Delivery (the messages
--    that a subscriber has still to read) and below it that publishing appends to them, that reading
--    takes them in order, and that neither takes a message from another slot; System (runs of
--    attempts to publish and of subscribers' events, in any order).
-- Prelude has the names and lemmas that all share, Tests concrete states and runs.
--
-- How the parts interact: the broker gives a subscriber one of a publisher's 16 slots and tells both
-- (Broker/Register, Protocol). The publisher enters the slot (Publisher/Tracking), takes a chunk from the
-- free list, fills it, marks it with the bits of all slots and writes its descriptor into the ring
-- (Publisher/Publish). A subscriber reads the descriptors from its read index on, drops its bit of each
-- chunk, and returns a chunk whose last bit it dropped (Subscriber, References). When a subscriber dies
-- the publisher drops its bits (Publisher/Release).
--
-- How the model is built: a structure is a record, an operation a function from state to state and
-- result. 32-bit arithmetic has its `% 2 ^ 32` written out. A file descriptor is its number. What the
-- operating system answers (an event read or written, a record received, a mapping made) and what other
-- processes and threads do meanwhile are arguments of the operations; an attempt to publish and the
-- reading of a message are one step each. The code is modelled with ENABLE_DEBUG_CHECKS, whose tests and
-- tracker of used chunks are part of the state. Logging is left out. An allocation that fails is not
-- modelled.
--
-- Bounds and fuel: the worker's handler makes at most 64 rounds, as the code does
-- (`kMaxPublishesPerWorkEvent`), and needs no fuel. The loops over records, events and attempts follow
-- lists of what arrives; a list that ends stands for a call or a thread that waits on.
-- `consume_contiguous_messages` takes fuel, one unit for each round of its loop; two are enough when no
-- other process changes the mapping meanwhile, and two more than the rounds after which other processes
-- leave the write index (Subscriber/Rounds).
--
-- Not modelled: the creation of sockets, event descriptors and mappings, the moves of the objects and
-- the joining of the worker threads (calls of the operating system and of the thread library), the
-- start of the broker up to its first wait, the status report of the broker (text, here an argument of
-- the event loop) and its client, the logger, the example nodes and the test harnesses. The appending
-- of a chunk to a free list is one step here, while the code makes a load and two stores of it, which
-- another process may interleave.
pub mod Prelude
pub mod Layout
pub mod Mask
pub mod Bytes
pub mod Shared
pub mod FreeList
pub mod Ring
pub mod Publisher
pub mod Outbox
pub mod Protocol
pub mod References
pub mod Subscriber
pub mod Broker
pub mod Sound
pub mod Delivery
pub mod System
pub mod Tests
