-- ===== src/Broker.antt =====
-- The broker, src/broker.cpp: its tables, and what it does when a client registers or leaves. The
-- handlers of messages are in Broker/Register, those of disconnections in Broker/Leave.
-- `exit(1)` and the early returns from `main` end the broker: an operation gives `none` then.
pub mod Register
pub mod Leave
pub mod Slots
pub mod Serve
use drive_bus.Prelude.{
  ℕ, zero, suc, ◌+◌, ◌%◌, List, [], ◌∷◌, ◌++◌, Option, none, some, Bool, leb, ◌==◌, ◌&&◌,
  if◌then◌else◌, length, find, put, insert,
}
use drive_bus.Layout.{max_subscribers}

pub data BrokerRole : Type 0 where
  subscriber publisher : BrokerRole

pub record SubscriberAttachment : Type 0 where
  pub attachment_id : ℕ
  pub topic_id : ℕ
  pub publisher_fd : ℕ
  pub space_available_event_fd : ℕ
  pub data_available_event_fd : ℕ
  pub slot_index : ℕ

-- A record that was sent: to whom, its bytes and its descriptors.
pub record Sent : Type 0 where
  pub receiver : ℕ
  pub bytes : List ℕ
  pub fds : List ℕ

-- `available_slots` is the map of maps by topic and publisher, flattened: the broker ends alike when
-- either key is missing. A min-heap is its elements in ascending order.
-- `closed` and `sent` are what was closed and sent, the latest first.
pub record Broker : Type 0 where
  pub next_attachment_id : ℕ
  pub available_slots : ℕ → ℕ → Option (List ℕ)
  pub attachments : List (ℕ × List SubscriberAttachment)
  pub roles : List (ℕ × BrokerRole)
  pub shm_fds : List (ℕ × ℕ)
  pub topics_of_subscriber : List (ℕ × List ℕ)
  pub publishers_of_topic : List (ℕ × List ℕ)
  pub space_event_fds : List (ℕ × ℕ)
  pub subscribers_of_topic : List (ℕ × List ℕ)
  pub closed : List ℕ
  pub sent : List Sent

-- The answers of the system: the descriptor of the `n`-th eventfd, if it is made, and whether the
-- `n`-th record is sent whole.
pub record System : Type 0 where
  pub event_fd : ℕ → Option ℕ
  pub delivered : ℕ → Bool

-- Two fixed keys of a table of tables.
abbrev pub update2 {ℓ} : {A : Type ℓ} → (ℕ → ℕ → A) → ℕ → ℕ → A → ℕ → ℕ → A
update2 f i j a i' j' = if (i == i') && (j == j') then a else f i' j'

-- `priority_queue::emplace`
unfoldable pub emplace : ℕ → List ℕ → List ℕ
emplace k [] = k ∷ []
emplace k (x ∷ xs) = if leb k x then k ∷ x ∷ xs else x ∷ emplace k xs

-- `init_available_subscriber_slots`, the slots from `slot` on
unfoldable pub slots_from : ℕ → ℕ → List ℕ → List ℕ
slots_from zero slot heap = heap
slots_from (suc n) slot heap = slots_from n (slot + 1) (emplace slot heap)

abbrev pub init_available_subscriber_slots : List ℕ → List ℕ
init_available_subscriber_slots heap = slots_from max_subscribers 0 heap

-- The send of a record; `none` when it is not sent whole.
unfoldable pub send : System → Broker → ℕ → List ℕ → List ℕ → Option Broker
send sys b receiver bytes fds =
    if sys.delivered (length b.sent)
    then some
        (record b { sent = record { receiver = receiver; bytes = bytes; fds = fds } ∷ b.sent })
    else none

abbrev pub attachment_id_mod : ℕ
attachment_id_mod = 18446744073709551616

-- The chain of the steps of a handler.
unfoldable pub and_then {ℓ κ} : {A : Type ℓ} {B : Type κ} → Option A → (A → Option B) → Option B
and_then none f = none
and_then (some a) f = f a
