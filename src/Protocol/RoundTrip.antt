-- ===== src/Protocol/RoundTrip.antt =====
-- What one side writes the other reads back.
use mathlib.Core.Path.{ap₂}
use mathlib.Core.Option.{some-injective}
use drive_bus.Prelude.{ℕ, ◌^◌, ◌<◌, ◌≡◌, refl, subst, List, [], ◌∷◌, ◌++◌, some, length, arith}
use drive_bus.Bytes.{to_bytes, of_bytes}
use drive_bus.Bytes.Laws.{of_bytes-to_bytes}
use drive_bus.Protocol.{
  BrokerMessageType, type_byte, slot_packet, slot_of_packet, publisher_disconnected_packet,
  attachment_id_of_packet, Metadata, metadata_bytes, batch_body, metadata_of_bytes, batch_of_body,
  topics_padded, topic_registration_packet, topics_of_packet,
}

-- A 32-bit slot index that the broker sends in a record of any type is the one that the publisher
-- reads.
pub slot_of_packet-slot_packet :
    (type : BrokerMessageType) (slot : ℕ)
    → slot < 2 ^ 32
    → slot_of_packet (slot_packet type slot) ≡ slot
unfolding slot_of_packet slot_packet to_bytes
slot_of_packet-slot_packet type slot h = (of_bytes-to_bytes 4 slot h)

-- A 64-bit attachment identifier that the broker sends with a disconnection is the one that the
-- subscriber reads.
pub attachment_id_of_packet-publisher_disconnected_packet :
    (id : ℕ) → id < 2 ^ 64 → attachment_id_of_packet (publisher_disconnected_packet id) ≡ id
unfolding attachment_id_of_packet publisher_disconnected_packet to_bytes
attachment_id_of_packet-publisher_disconnected_packet id h = (of_bytes-to_bytes 8 id h)

-- The numbers of an entry fit their fields.
pub record Fits (m : Metadata) : Type 0 where
  pub id : m.attachment_id < 2 ^ 64
  pub topic : m.topic_id < 2 ^ 8
  pub slot : m.slot_index < 2 ^ 32

abbrev pub AllFit : List Metadata → Type 0
AllFit [] = Unit {0}
AllFit (m ∷ ms) = Fits m × AllFit ms

metadata_of_bytes-metadata_bytes :
    (m : Metadata) (rest : List ℕ) → Fits m → metadata_of_bytes (metadata_bytes m ++ rest) ≡ m
unfolding metadata_of_bytes metadata_bytes to_bytes
metadata_of_bytes-metadata_bytes m rest f = λ i. record {
  attachment_id = of_bytes-to_bytes 8 m.attachment_id f.id i;
  topic_id = of_bytes-to_bytes 1 m.topic_id f.topic i;
  slot_index = of_bytes-to_bytes 4 m.slot_index f.slot i;
}

-- The subscriber reads from a batch the entries that the broker wrote, in order, if their fields fit
-- their widths; bytes behind them are not read.
pub batch_of_body-batch_body :
    (ms : List Metadata) (rest : List ℕ)
    → AllFit ms
    → batch_of_body (length ms) (batch_body ms ++ rest) ≡ ms
unfolding batch_of_body batch_body metadata_bytes to_bytes
batch_of_body-batch_body [] rest f = refl
batch_of_body-batch_body (m ∷ ms) rest f =
    ap₂ ◌∷◌ (metadata_of_bytes-metadata_bytes m (batch_body ms ++ rest) f.0)
      (batch_of_body-batch_body ms rest f.1)

read_back :
    (topics : List ℕ) {b c : List ℕ}
    → some b ≡ some c
    → topics_of_packet b ≡ some topics
    → topics_of_packet c ≡ some topics
read_back topics {b} {c} e h =
    subst (λ x. topics_of_packet x ≡ some topics) (some-injective b c e) h

-- When the subscriber's topics give a registration record, the broker reads those topics from it.
pub topics_of_packet-topic_registration_packet :
    (topics : List ℕ) {bytes : List ℕ}
    → topic_registration_packet topics ≡ some bytes
    → topics_of_packet bytes ≡ some topics
unfolding topics_of_packet topic_registration_packet topics_padded type_byte to_bytes of_bytes
topics_of_packet-topic_registration_packet [] e = cc
topics_of_packet-topic_registration_packet (a ∷ []) e = read_back _ e refl
topics_of_packet-topic_registration_packet (a ∷ b ∷ []) e = read_back _ e refl
topics_of_packet-topic_registration_packet (a ∷ b ∷ c ∷ []) e = read_back _ e refl
topics_of_packet-topic_registration_packet (a ∷ b ∷ c ∷ d ∷ []) e = read_back _ e refl
topics_of_packet-topic_registration_packet (a ∷ b ∷ c ∷ d ∷ f ∷ []) e = read_back _ e refl
topics_of_packet-topic_registration_packet (a ∷ b ∷ c ∷ d ∷ f ∷ g ∷ r) e = absurd (ground arith)
