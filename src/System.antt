-- ===== src/System.antt =====
-- A publisher and its subscribers over a run: attempts to publish (`Publisher::try_publish_one` of
-- src/publisher.cpp) and events of subscribers (`Subscriber::handle_data_available_event` of
-- src/subscriber.cpp) in any order, on one mapping. Every event write is answered.
pub mod Broadcast
use drive_bus.Prelude.{ℕ, List, [], ◌∷◌, ◌++◌, Option, none, some, Bool, true, update}
use drive_bus.Publisher.{Publisher, succeeded, blocked}
use drive_bus.Publisher.Publish.{PublishOutcome, attempt, failed, try_publish_one}
use drive_bus.Subscriber.{PublisherAttachment}
use drive_bus.Subscriber.Events.{
  Surroundings, EventResult, failed, reading, handle_data_available_event,
}

-- `attachment` and `delivered` are by slot: the attachment that the subscriber of a slot has to the
-- publisher, and the messages that it has been given. `published` holds those published, the oldest
-- first. An event that ends without an error gives its subscriber all messages that it has taken,
-- in a batch or by the callback.
pub record System : Type 0 where
  pub publisher : Publisher
  pub attachment : ℕ → PublisherAttachment
  pub delivered : ℕ → List (List ℕ)
  pub published : List (List ℕ)

pub data Action : Type 0 where
  publish : List ℕ → Action
  event : ℕ → Action

abbrev pub answered : ℕ → Bool
answered fd = true

abbrev pub alone : Surroundings
alone = record { drained = true; signal = λ round i. true; others = λ round s. s }

unfoldable pub after_publish : System → List ℕ → Publisher × PublishOutcome → Option System
after_publish y payload (p, PublishOutcome.failed e) = none
after_publish y payload (p, attempt blocked) = some (record y { publisher = p })
after_publish y payload (p, attempt succeeded) =
    some (record y { publisher = p; published = y.published ++ payload ∷ [] })

unfoldable pub after_event : System → ℕ → Option EventResult → Option System
after_event y slot none = none
after_event y slot (some (EventResult.failed e)) = none
after_event y slot (some (reading r)) = elim r.error [
  | some e ↦ none
  | none ↦ some (record y {
    publisher = record y.publisher { shared_data = r.shared };
    attachment = update y.attachment slot r.attachment;
    delivered = update y.delivered slot (y.delivered slot ++ r.taken);
  })
]

-- `none`: an operation has failed.
unfoldable pub perform : Action → System → Option System
perform (publish payload) y = after_publish y payload (try_publish_one answered y.publisher payload)
perform (event slot) y =
    after_event y slot
      (handle_data_available_event alone 2 (some (y.attachment slot)) y.publisher.shared_data)

unfoldable pub perform_all : List Action → System → Option System
perform_all [] y = some y
perform_all (a ∷ as') y = elim (perform a y) [ none ↦ none | some z ↦ perform_all as' z ]
