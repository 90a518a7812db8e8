-- ===== src/Tests/Serve.antt =====
-- Runs of the broker's event loop.
use drive_bus.Prelude.{ℕ, ◌≡◌, refl, List, [], ◌∷◌, none, some, true, false, find}
use drive_bus.Broker.{Broker, and_then}
use drive_bus.Broker.Serve.{
  Server, Accepted, no_more, connection, accepting, readable, shutdown, peer_closed, contains,
  accept_client, accept_clients, insert_client, erase_client, close_client, Descriptors, shut_down,
  serve, serve_wait, serve_events, serve_event, receive_all, receive, disconnect,
}
use drive_bus.Broker.Serve.Accepting.{accept_clients-closed, accepted_fds}
use drive_bus.Tests.Tables.{system, broker}

abbrev server : Server
server = record { broker = broker; clients = 7 ∷ [] }

abbrev own_fds : Descriptors
own_fds = record { listen_fd = 3; epoll_fd = 4; shutdown_fd = 5 }

abbrev no_report : Broker → List ℕ
no_report b = []

-- A client that closes its connection before it registers ends the broker.
early_close_ends :
    serve system no_report
      (some (accepting (connection 9 true ∷ no_more ∷ []) ∷ readable 9 (peer_closed ∷ []) ∷ [])
        ∷ [])
      server
    ≡ none
unfolding serve serve_wait serve_events serve_event accept_clients accept_client insert_client
    receive_all receive disconnect find and_then contains
early_close_ends = refl

-- The signal stops the loop, and the events after it are not served.
shutdown_stops :
    serve system no_report (some (shutdown true ∷ readable 9 (peer_closed ∷ []) ∷ []) ∷ []) server
    ≡ some (server, true)
unfolding serve serve_wait serve_events serve_event and_then
shutdown_stops = refl

abbrev accepts : List Accepted
accepts = connection 9 true ∷ connection 10 false ∷ no_more ∷ connection 11 true ∷ []

abbrev after_accepts : Server
after_accepts = record { broker = record broker { closed = 10 ∷ [] }; clients = 9 ∷ 7 ∷ [] }

accepts_run : accept_clients accepts server ≡ some after_accepts
unfolding accept_clients accept_client insert_client erase_client close_client contains
accepts_run = refl

accept_clients-closed_example : contains 10 (shut_down own_fds after_accepts).closed ≡ true
unfolding accepted_fds contains
accept_clients-closed_example =
    accept_clients-closed 10 own_fds accepts server after_accepts accepts_run refl
