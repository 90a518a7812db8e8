-- ===== src/Delivery/Drain.antt =====
-- One event of a subscriber, `handle_data_available_event` of src/subscriber.cpp, delivers all that
-- waits.

use drive_bus.Prelude.{
  ℕ, suc, ◌<◌, ◌≡◌, ◌≢◌, ◌⊎◌, inl, inr, [], none, some, Bool-cases, ◌==◌, ==_iff, refl, sym, length,
  length-map, arith, map, ◌∙◌, ap,
}
use drive_bus.Layout.{invalid_index}
use drive_bus.Shared.{SharedData}
use drive_bus.Ring.Slowest.{pending_count}
use drive_bus.Ring.Pending.{pending, pending-joined, length-window}
use drive_bus.Subscriber.{PublisherAttachment, Reading}
use drive_bus.Subscriber.Events.{
  Surroundings, initialize_subscriber_read_index, reading, handle_data_available_event,
}
use drive_bus.Sound.{Sound}
use drive_bus.Sound.Read.{InRange}
use drive_bus.Delivery.{message_at, queue, Waiting}
use drive_bus.Delivery.Frame.{Keeping}
use drive_bus.Delivery.Append.{seq_after}
use drive_bus.Delivery.Read.{Expecting}
use drive_bus.Delivery.Rounds.{steps-mod}
use drive_bus.Delivery.Reading.{Given}
use drive_bus.Delivery.Event.{Quiet}
use drive_bus.Delivery.Available.{available-Given}

-- A subscriber's attachment as it is between events: not yet reading, or where its slot says.
pub record Attached (s : SharedData) (slot seq : ℕ) (a : PublisherAttachment) : Type 0 where
  pub at_slot : a.slot_index ≡ slot
  pub low : slot < 16
  pub active : s.descriptor_read_indices slot < 16
  pub place :
      (a.subscriber_read_index ≡ invalid_index)
      ⊎ (a.subscriber_read_index ≡ s.descriptor_read_indices slot)
  pub expecting : Expecting a seq

-- What an event leaves, by itself: all that waited is delivered in order, nothing waits, the attachment
-- is where its slot says, and the other slots keep theirs.
pub record Drained (s : SharedData) (slot seq : ℕ) (r : Reading) : Type 0 where
  pub error : r.error ≡ none
  pub delivered : r.taken ≡ queue s slot
  pub empty : queue r.shared slot ≡ []
  pub waiting : Waiting r.shared slot (seq_after (length (queue s slot)) seq)
  pub sound : Sound r.shared
  pub attached : Attached r.shared slot (seq_after (length (queue s slot)) seq) r.attachment
  pub same_write : r.shared.descriptor_write_index ≡ s.descriptor_write_index
  pub same_ring : r.shared.desc_ring ≡ s.desc_ring
  pub others : (k q : ℕ) → slot ≢ k → Keeping s r.shared k q
  pub other_reads :
      (k : ℕ) → slot ≢ k → r.shared.descriptor_read_indices k ≡ s.descriptor_read_indices k

initialized :
    (s : SharedData) (slot seq : ℕ) (a : PublisherAttachment)
    → Attached s slot seq a
    → ((initialize_subscriber_read_index a s).slot_index ≡ slot)
      × (s.descriptor_read_indices slot
          ≡ (initialize_subscriber_read_index a s).subscriber_read_index)
      × Expecting (initialize_subscriber_read_index a s) seq
unfolding initialize_subscriber_read_index
initialized s slot seq a h = elim (Bool-cases (a.subscriber_read_index == invalid_index)) [
  | inl e ↦ rw e (h.at_slot, ap s.descriptor_read_indices (sym h.at_slot), h.expecting)
  | inr e ↦ rw e (
    h.at_slot,
    elim h.place [
      | inl f ↦ absurd (ground (arith, ==_iff a.subscriber_read_index invalid_index))
      | inr f ↦ sym f
    ],
    h.expecting,
  )
]

-- On a well-formed mapping, with nothing else going on and every event write answered, one event of an
-- attached subscriber, given fuel for two rounds, comes to its end without an error: it delivers all the
-- messages that waited for its slot, in the order in which they were published, nothing waits any
-- longer, the attachment and the mapping are ready for the next event, and no other slot loses a message.
pub handle_data_available_event-Drained :
    (env : Surroundings) (fuel : ℕ) (a : PublisherAttachment) (s : SharedData) (slot seq : ℕ)
    → Quiet env
    → Sound s
    → Waiting s slot seq
    → Attached s slot seq a
    → (r : Reading) × (handle_data_available_event env (suc (suc fuel)) (some a) s
        ≡ some (reading r))
      × Drained s slot seq r
unfolding handle_data_available_event
handle_data_available_event-Drained env fuel a s slot seq quiet sound waiting h =
    let (r, done, g) =
      available-Given env fuel b s slot seq quiet sound range b_slot stored expecting
        (rw stored at waiting) in
    (r, rw (quiet.alone 0 s, done, quiet.drained) refl, drained r g)
  where
    b : PublisherAttachment
    b = initialize_subscriber_read_index a s

    b_slot : b.slot_index ≡ slot
    b_slot = (initialized s slot seq a h).0

    stored : s.descriptor_read_indices slot ≡ b.subscriber_read_index
    stored = (initialized s slot seq a h).1

    expecting : Expecting b seq
    expecting = (initialized s slot seq a h).2

    range : InRange b
    range = record { slot = omega (arith, b_slot, h.low); index = omega (arith, stored, h.active) }

    at_write :
        (r : Reading)
        → Given s slot b.subscriber_read_index seq
            (pending s.desc_ring b.subscriber_read_index s.descriptor_write_index)
            []
            r
        → r.attachment.subscriber_read_index ≡ s.descriptor_write_index
    at_write r g =
        rw
          (
            g.moved,
            length-window s.desc_ring b.subscriber_read_index
                (pending_count b.subscriber_read_index s.descriptor_write_index),
            steps-mod (pending_count b.subscriber_read_index s.descriptor_write_index)
                b.subscriber_read_index range.index,
          )
          (omega (arith, sound.indices.write, range.index))

    numbers :
        seq_after (length (queue s slot)) seq
        ≡ seq_after
            (length (pending s.desc_ring b.subscriber_read_index s.descriptor_write_index))
            seq
    numbers =
        rw
          (
            length-map (message_at s.pool)
                (pending s.desc_ring (s.descriptor_read_indices slot) s.descriptor_write_index),
            stored,
          )
          refl

    drained :
        (r : Reading)
        → Given s slot b.subscriber_read_index seq
            (pending s.desc_ring b.subscriber_read_index s.descriptor_write_index)
            []
            r
        → Drained s slot seq r
    drained r g = record {
      error = g.error;
      delivered =
          g.delivered
          ∙ ap (λ (i : ℕ). map (message_at s.pool) (pending s.desc_ring i s.descriptor_write_index))
              (sym stored);
      empty =
          rw
            (
              g.ring,
              g.stored ∙ at_write r g,
              g.write,
              pending-joined s.desc_ring s.descriptor_write_index sound.indices.write,
            )
            refl;
      waiting =
          rw
            (
              g.ring,
              g.stored ∙ at_write r g,
              g.write,
              pending-joined s.desc_ring s.descriptor_write_index sound.indices.write,
            )
            tt;
      sound = g.sound;
      attached = record {
        at_slot = g.slot_same;
        low = h.low;
        active = omega (arith, g.stored, g.range.index);
        place = inr (sym g.stored);
        expecting = rw numbers g.expecting;
      };
      same_write = g.write;
      same_ring = g.ring;
      others = g.others;
      other_reads = g.other_reads;
    }
