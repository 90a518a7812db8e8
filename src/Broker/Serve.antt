-- ===== src/Broker/Serve.antt =====
-- The event loop of the broker: `main` of src/broker.cpp from the first `epoll_wait` on, with the
-- acceptance of clients, the dispatch of their records, and the shutdown. `none` is the end of the
-- broker by `exit(1)` or by an early return. What the system answers is in the events; the text of the
-- status report is an argument.
pub mod Accepting
use drive_bus.Prelude.{
  ℕ, List, [], ◌∷◌, ◌++◌, Option, none, some, Bool, true, false, not, ltb, ◌==◌, ◌||◌,
  if◌then◌else◌, length, get_or, find, find_or,
}
use drive_bus.Protocol.{
  Cmsg, type_byte, status_query, status_snapshot, subscriber_topic_registration,
  publisher_topic_registration,
}
use drive_bus.Broker.{
  Broker, BrokerRole, subscriber, publisher, SubscriberAttachment, System, and_then,
}
use drive_bus.Broker.Register.{register_subscriber, register_publisher}
use drive_bus.Broker.Leave.{handle_subscriber_disconnect, handle_publisher_disconnect}

-- `clients` is the set `client_fds`.
pub record Server : Type 0 where
  pub broker : Broker
  pub clients : List ℕ

-- A record of a client as `recvmsg` gives it, at least one byte of it. `stale` is what the buffer held
-- at the second byte before; `answered` says whether an answer to it is sent whole.
pub record Record : Type 0 where
  pub bytes : List ℕ
  pub stale : ℕ
  pub control_truncated : Bool
  pub cmsg : Option Cmsg
  pub answered : Bool

pub data Received : Type 0 where
  peer_closed would_block receive_failed : Received
  arrived : Record → Received

-- A connection has its descriptor, and whether epoll takes it.
pub data Accepted : Type 0 where
  no_more accept_failed : Accepted
  connection : ℕ → Bool → Accepted

-- An event: of the signal descriptor, with whether it is read whole; of the listening socket; of a
-- client, readable or not.
pub data Event : Type 0 where
  shutdown : Bool → Event
  accepting : List Accepted → Event
  readable : ℕ → List Received → Event
  not_readable : ℕ → Event

unfoldable pub contains : ℕ → List ℕ → Bool
contains fd [] = false
contains fd (x ∷ xs) = (x == fd) || contains fd xs

unfoldable pub insert_client : ℕ → List ℕ → List ℕ
insert_client fd clients = if contains fd clients then clients else fd ∷ clients

unfoldable pub erase_client : ℕ → List ℕ → List ℕ
erase_client fd [] = []
erase_client fd (x ∷ xs) = let rest = erase_client fd xs in if x == fd then rest else x ∷ rest

unfoldable pub close_client : ℕ → Server → Server
close_client fd s = record {
  broker = record s.broker { closed = fd ∷ s.broker.closed };
  clients = erase_client fd s.clients;
}

unfoldable pub accept_client : ℕ → Bool → Server → Server
accept_client fd added s =
    let joined : Server = record s { clients = insert_client fd s.clients } in
    if added then joined else close_client fd joined

-- The accept loop; the end of the list is a call that would block.
unfoldable pub accept_clients : List Accepted → Server → Option Server
accept_clients [] s = some s
accept_clients (no_more ∷ rest) s = some s
accept_clients (accept_failed ∷ rest) s = none
accept_clients (connection fd added ∷ rest) s = accept_clients rest (accept_client fd added s)

unfoldable pub leave : System → ℕ → BrokerRole → Broker → Option Broker
leave sys fd subscriber b = handle_subscriber_disconnect sys fd b
leave sys fd publisher b = handle_publisher_disconnect sys fd b

unfoldable pub with_broker : Server → Option Broker → Option (Server × Bool)
with_broker s none = none
with_broker s (some b) = some (record s { broker = b }, true)

abbrev pub max_status_snapshot_payload_size : ℕ
max_status_snapshot_payload_size = 4095

-- "complete=0\nreason=status_snapshot_too_large\n"
abbrev pub too_large_payload : List ℕ
too_large_payload =
    99 ∷ 111 ∷ 109 ∷ 112 ∷ 108 ∷ 101 ∷ 116 ∷ 101 ∷ 61 ∷ 48 ∷ 10 ∷ 114 ∷ 101 ∷ 97 ∷ 115 ∷ 111 ∷ 110
    ∷ 61 ∷ 115 ∷ 116 ∷ 97 ∷ 116 ∷ 117 ∷ 115 ∷ 95 ∷ 115 ∷ 110 ∷ 97 ∷ 112 ∷ 115 ∷ 104 ∷ 111 ∷ 116 ∷ 95
    ∷ 116 ∷ 111 ∷ 111 ∷ 95 ∷ 108 ∷ 97 ∷ 114 ∷ 103 ∷ 101 ∷ 10 ∷ []

unfoldable pub limited_payload : List ℕ → List ℕ
limited_payload payload =
    if ltb max_status_snapshot_payload_size (length payload) then too_large_payload else payload

-- The answer to a status query; whether it is sent or not, the client is closed.
unfoldable pub answer_status : ℕ → Bool → List ℕ → Server → Server
answer_status fd answered payload s =
    let told : Server = record s {
      broker = record s.broker {
        sent =
            record {
              receiver = fd;
              bytes = type_byte status_snapshot ∷ limited_payload payload;
              fds = [];
            }
            ∷ s.broker.sent;
      };
    } in
    close_client fd (if answered then told else s)

module _ (sys : System) (build_status_snapshot_payload : Broker → List ℕ) where
  -- The `switch`; the Boolean says whether the loop over the client's records goes on.
  unfoldable pub dispatch : ℕ → Record → Server → Option (Server × Bool)
  dispatch fd r s =
      let type = get_or r.bytes 0 0 in
      if type == type_byte status_query
      then if length r.bytes == 1
        then some (answer_status fd r.answered (build_status_snapshot_payload s.broker) s, false)
        else none
      else if type == type_byte subscriber_topic_registration
      then with_broker s (register_subscriber sys fd r.bytes s.broker)
      else if type == type_byte publisher_topic_registration
      then with_broker s (register_publisher sys fd r.bytes r.stale r.cmsg s.broker)
      else some (s, true)

  -- A client that left, with its entry in `clients` kept or not.
  unfoldable pub disconnect : ℕ → List ℕ → Server → Option (Server × Bool)
  disconnect fd clients s = and_then (find fd s.broker.roles) (λ role.
      and_then (leave sys fd role s.broker)
        (λ b. some (record { broker = b; clients = clients }, false)))

  unfoldable pub receive : ℕ → Received → Server → Option (Server × Bool)
  receive fd peer_closed s = disconnect fd s.clients s
  receive fd would_block s = some (s, false)
  receive fd receive_failed s =
      if contains fd s.clients then disconnect fd (erase_client fd s.clients) s else none
  receive fd (arrived r) s = if r.control_truncated then none else dispatch fd r s

  unfoldable pub receive_all : ℕ → List Received → Server → Option Server
  receive_all fd [] s = some s
  receive_all fd (r ∷ rest) s =
      and_then (receive fd r s)
        (λ t. elim t.1 [ true ↦ receive_all fd rest t.0 | false ↦ some t.0 ])

  -- The Boolean says whether shutdown is requested.
  unfoldable pub serve_event : Event → Server → Option (Server × Bool)
  serve_event (shutdown whole) s = if whole then some (s, true) else none
  serve_event (accepting rs) s = and_then (accept_clients rs s) (λ s'. some (s', false))
  serve_event (readable fd rs) s = and_then (receive_all fd rs s) (λ s'. some (s', false))
  serve_event (not_readable fd) s = some (s, false)

  unfoldable pub serve_events : List Event → Server → Option (Server × Bool)
  serve_events [] s = some (s, false)
  serve_events (e ∷ rest) s =
      and_then (serve_event e s) (λ t. elim t.1 [ true ↦ some t | false ↦ serve_events rest t.0 ])

  -- One return of `epoll_wait`, `none` a failed one; a return without an event ends the broker too.
  unfoldable pub serve_wait : Option (List Event) → Server → Option (Server × Bool)
  serve_wait none s = none
  serve_wait (some []) s = none
  serve_wait (some (e ∷ rest)) s = serve_events (e ∷ rest) s

  -- The loop; at the end of the list the broker waits on, and the Boolean is false.
  unfoldable pub serve : List (Option (List Event)) → Server → Option (Server × Bool)
  serve [] s = some (s, false)
  serve (w ∷ rest) s =
      and_then (serve_wait w s) (λ t. elim t.1 [ true ↦ some t | false ↦ serve rest t.0 ])

-- What is closed for the clients with a role, the latest first.
unfoldable pub attachment_closings : List SubscriberAttachment → List ℕ → List ℕ
attachment_closings [] closed = closed
attachment_closings (a ∷ atts) closed =
    attachment_closings atts (a.data_available_event_fd ∷ closed)

unfoldable pub shm_closing : Option ℕ → List ℕ → List ℕ
shm_closing none closed = closed
shm_closing (some shm_fd) closed = shm_fd ∷ closed

unfoldable pub role_closings : Broker → List (ℕ × BrokerRole) → List ℕ → List ℕ
role_closings b [] closed = closed
role_closings b ((fd, subscriber) ∷ rest) closed =
    role_closings b rest (attachment_closings (find_or (find fd b.attachments) []) closed)
role_closings b ((fd, publisher) ∷ rest) closed =
    role_closings b rest (shm_closing (find fd b.shm_fds) closed)

-- The three descriptors of the broker itself.
pub record Descriptors : Type 0 where
  pub listen_fd : ℕ
  pub epoll_fd : ℕ
  pub shutdown_fd : ℕ

unfoldable pub shut_down : Descriptors → Server → Broker
shut_down d s = record s.broker {
  closed =
      role_closings s.broker s.broker.roles
        (s.clients ++ d.shutdown_fd ∷ d.epoll_fd ∷ d.listen_fd ∷ s.broker.closed);
}
