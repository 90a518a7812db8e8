-- ===== src/Broker/Serve/Accepting.antt =====
-- The acceptance of clients (`main` of src/broker.cpp) and the shutdown: no descriptor is lost.
use drive_bus.Prelude.{
  ℕ, ◌≡◌, refl, List, [], ◌∷◌, ◌++◌, Option, none, some, Bool, true, false, ◌==◌, ◌||◌, arith, find,
  find_or,
}
use drive_bus.Broker.{Broker, BrokerRole, subscriber, publisher, SubscriberAttachment}
use drive_bus.Broker.Serve.{
  Server, Accepted, no_more, accept_failed, connection, contains, insert_client, erase_client,
  close_client, accept_client, accept_clients, attachment_closings, shm_closing, role_closings,
  Descriptors, shut_down,
}

contains-append :
    (k : ℕ) (xs ys : List ℕ) → contains k (xs ++ ys) ≡ (contains k xs || contains k ys)
unfolding contains
contains-append k [] ys = refl
contains-append k (x ∷ xs) ys = let ih = contains-append k xs ys in ground arith

contains-erase_client :
    (k fd : ℕ) (xs : List ℕ)
    → (k == fd) ≡ false
    → contains k xs ≡ true
    → contains k (erase_client fd xs) ≡ true
unfolding contains erase_client
contains-erase_client k fd [] ne h = h
contains-erase_client k fd (x ∷ xs) ne h = let ih = contains-erase_client k fd xs ne in ground arith

-- A descriptor is among the clients or was closed.
abbrev Held : ℕ → Server → Type 0
Held k s = (contains k s.clients || contains k s.broker.closed) ≡ true

accept_client_self : (fd : ℕ) (added : Bool) (s : Server) → Held fd (accept_client fd added s)
unfolding accept_client close_client contains insert_client
accept_client_self fd added s = ground arith

accept_client-Held :
    (k fd : ℕ) (added : Bool) (s : Server) → Held k s → Held k (accept_client fd added s)
unfolding accept_client close_client contains insert_client
accept_client-Held k fd added s h =
    let gone = contains-erase_client k fd (insert_client fd s.clients) in ground arith

accept_clients-Held :
    (k : ℕ) (rs : List Accepted) (s t : Server) → accept_clients rs s ≡ some t → Held k s → Held k t
unfolding accept_clients
accept_clients-Held k [] s t done h = ground arith
accept_clients-Held k (no_more ∷ rest) s t done h = ground arith
accept_clients-Held k (accept_failed ∷ rest) s t done h = ground arith
accept_clients-Held k (connection fd added ∷ rest) s t done h =
    accept_clients-Held k rest (accept_client fd added s) t done (accept_client-Held k fd added s h)

-- The descriptors of the connections that the accept loop takes.
unfoldable pub accepted_fds : List Accepted → List ℕ
accepted_fds [] = []
accepted_fds (no_more ∷ rest) = []
accepted_fds (accept_failed ∷ rest) = []
accepted_fds (connection fd added ∷ rest) = fd ∷ accepted_fds rest

accept_clients-accounted :
    (k : ℕ) (rs : List Accepted) (s t : Server)
    → accept_clients rs s ≡ some t
    → contains k (accepted_fds rs) ≡ true
    → Held k t
unfolding accept_clients accepted_fds contains
accept_clients-accounted k [] s t done h = ground arith
accept_clients-accounted k (no_more ∷ rest) s t done h = ground arith
accept_clients-accounted k (accept_failed ∷ rest) s t done h = ground arith
accept_clients-accounted k (connection fd added ∷ rest) s t done h =
    let next = accept_client fd added s in
    let now : Held fd next = accept_client_self fd added s in
    let later = accept_clients-Held fd rest next t done now in
    let ih = accept_clients-accounted k rest next t done in grind arith

attachment_closings-keeps :
    (k : ℕ) (atts : List SubscriberAttachment) (closed : List ℕ)
    → contains k closed ≡ true
    → contains k (attachment_closings atts closed) ≡ true
unfolding attachment_closings contains
attachment_closings-keeps k [] closed h = h
attachment_closings-keeps k (a ∷ atts) closed h =
    attachment_closings-keeps k atts (a.data_available_event_fd ∷ closed) (ground arith)

shm_closing-keeps :
    (k : ℕ) (shm_fd : Option ℕ) (closed : List ℕ)
    → contains k closed ≡ true
    → contains k (shm_closing shm_fd closed) ≡ true
unfolding shm_closing contains
shm_closing-keeps k none closed h = h
shm_closing-keeps k (some shm_fd) closed h = ground arith

role_closings-keeps :
    (k : ℕ) (b : Broker) (roles : List (ℕ × BrokerRole)) (closed : List ℕ)
    → contains k closed ≡ true
    → contains k (role_closings b roles closed) ≡ true
unfolding role_closings contains
role_closings-keeps k b [] closed h = h
role_closings-keeps k b ((fd, subscriber) ∷ rest) closed h =
    role_closings-keeps k b rest (attachment_closings (find_or (find fd b.attachments) []) closed)
      (attachment_closings-keeps k (find_or (find fd b.attachments) []) closed h)
role_closings-keeps k b ((fd, publisher) ∷ rest) closed h =
    role_closings-keeps k b rest (shm_closing (find fd b.shm_fds) closed)
      (shm_closing-keeps k (find fd b.shm_fds) closed h)

shut_down-closes :
    (k : ℕ) (d : Descriptors) (s : Server) → Held k s → contains k (shut_down d s).closed ≡ true
unfolding shut_down contains
shut_down-closes k d s h =
    role_closings-keeps k s.broker s.broker.roles
      (s.clients ++ d.shutdown_fd ∷ d.epoll_fd ∷ d.listen_fd ∷ s.broker.closed)
      (let split =
          contains-append k s.clients
            (d.shutdown_fd ∷ d.epoll_fd ∷ d.listen_fd ∷ s.broker.closed) in
        ground arith)

-- When an accept loop ends without an error, every connection that it took, whether epoll took it too or
-- not, is closed once the broker shuts down after it; and so is every client that was there before.
pub accept_clients-closed :
    (k : ℕ) (d : Descriptors) (rs : List Accepted) (s t : Server)
    → accept_clients rs s ≡ some t
    → (contains k (accepted_fds rs) || contains k s.clients) ≡ true
    → contains k (shut_down d t).closed ≡ true
accept_clients-closed k d rs s t done h =
    let new = accept_clients-accounted k rs s t done in
    let old = accept_clients-Held k rs s t done in shut_down-closes k d t ground arith
