-- ===== src/Delivery/Reading.antt =====
-- The loop of `Subscriber::read_data` of src/subscriber.cpp over several messages.
use mathlib.Core.List.{map-append}
use drive_bus.Prelude.{
  ℕ, ◌+◌, ◌%◌, ◌≡◌, ◌≢◌, inl, inr, List, [], ◌∷◌, ◌++◌, none, Bool, true, false, refl, sym, subst,
  length, length-map, append-injective, map, ◌∙◌, ap,
}
use drive_bus.Layout.{MessageDescriptor, word_mod}
use drive_bus.Shared.{SharedData}
use drive_bus.FreeList.Chain.{member}
use drive_bus.Subscriber.{PublisherAttachment, Reading, step_index, deliver, read_data}
use drive_bus.Subscriber.Progress.{steps}
use drive_bus.Sound.{Sound}
use drive_bus.Sound.Read.{InRange}
use drive_bus.Delivery.{message_at, Ready, AllReady}
use drive_bus.Delivery.Frame.{
  Keeping, Keeping-trans, AllKeeping, other_chunks, AllReady-frame, messages-frame,
}
use drive_bus.Delivery.Append.{seq_after}
use drive_bus.Delivery.Read.{
  Expecting, read_on, read_one, left, left-Sound, left-Keeping, left-ring, left-write, left-own,
  left-reads, read_on-slot, read_on-index, read_on-InRange, read_on-Expecting,
}

-- The messages of `ds` are read: they are delivered in order without an error, those of `rest` can
-- still be read, and nothing is taken from another slot.
pub record Given (s : SharedData) (slot index seq : ℕ) (ds rest : List MessageDescriptor)
    (r : Reading) : Type 0 where
  pub error : r.error ≡ none
  pub delivered : r.taken ≡ map (message_at s.pool) ds
  pub waiting : AllReady r.shared slot (seq_after (length ds) seq) rest
  pub messages : map (message_at r.shared.pool) rest ≡ map (message_at s.pool) rest
  pub expecting : Expecting r.attachment (seq_after (length ds) seq)
  pub sound : Sound r.shared
  pub range : InRange r.attachment
  pub slot_same : r.attachment.slot_index ≡ slot
  pub moved : r.attachment.subscriber_read_index ≡ steps (length ds) index
  pub stored : r.shared.descriptor_read_indices slot ≡ r.attachment.subscriber_read_index
  pub ring : r.shared.desc_ring ≡ s.desc_ring
  pub write : r.shared.descriptor_write_index ≡ s.descriptor_write_index
  pub others : (k q : ℕ) → slot ≢ k → Keeping s r.shared k q
  pub other_reads :
      (k : ℕ) → slot ≢ k → r.shared.descriptor_read_indices k ≡ s.descriptor_read_indices k

Keeping-refl : (s : SharedData) (k q : ℕ) → Keeping s s k q
Keeping-refl s k q = record { bits = λ c i hc hi e h. h; bytes = λ c i x hc hi e h lo hi'. refl }

-- The rest of a list of descriptors of different chunks is kept.
rest-Keeping :
    (s t : SharedData) (slot seq o : ℕ) (ds rest : List MessageDescriptor)
    → ((q : ℕ) → o ≢ q → Keeping s t slot q)
    → member o (map (λ e. e.offset) (ds ++ rest)) ≡ false
    → AllKeeping s t slot (ds ++ rest)
rest-Keeping s t slot seq o ds rest h out = other_chunks s t slot o (ds ++ rest) h out

-- One message and the rest of the loop.
module _ (a : PublisherAttachment) (s : SharedData) (seq : ℕ) (d : MessageDescriptor)
    (ds rest : List MessageDescriptor) (sound : Sound s) (range : InRange a)
    (expecting : Expecting a seq) (slot : ℕ) (at_slot : a.slot_index ≡ slot)
    (r : Ready s slot seq d) (out : member d.offset (map (λ e. e.offset) (ds ++ rest)) ≡ false)
    (ready : AllReady s slot ((seq + 1) % word_mod) (ds ++ rest)) where
  abbrev now : SharedData
  now = left a s seq d sound range expecting slot at_slot r

  kept : AllKeeping s now slot (ds ++ rest)
  kept =
      other_chunks s now slot d.offset (ds ++ rest)
        (λ q ne. left-Keeping a s seq d sound range expecting slot at_slot r slot q (inl ne)) out

  later : AllReady now slot ((seq + 1) % word_mod) (ds ++ rest)
  later = AllReady-frame s now slot ((seq + 1) % word_mod) (ds ++ rest) kept ready

  same_messages : map (message_at now.pool) (ds ++ rest) ≡ map (message_at s.pool) (ds ++ rest)
  same_messages = messages-frame s now slot ((seq + 1) % word_mod) (ds ++ rest) kept ready

  same_parts :
      (map (message_at now.pool) ds ≡ map (message_at s.pool) ds)
      × (map (message_at now.pool) rest ≡ map (message_at s.pool) rest)
  same_parts =
      append-injective (map (message_at now.pool) ds) (map (message_at now.pool) rest)
        (map (message_at s.pool) ds) (map (message_at s.pool) rest)
        (length-map (message_at now.pool) ds ∙ sym (length-map (message_at s.pool) ds))
        (sym (map-append (message_at now.pool) ds rest)
          ∙ (same_messages ∙ map-append (message_at s.pool) ds rest))

  deliver-Given :
      (q : Reading)
      → Given now slot (step_index a.subscriber_read_index) ((seq + 1) % word_mod) ds rest q
      → Given s slot a.subscriber_read_index seq (d ∷ ds) rest (deliver (message_at s.pool d) q)
  unfolding deliver
  deliver-Given q g = record {
    error = g.error;
    delivered = ap (λ (l : List (List ℕ)). message_at s.pool d ∷ l) (g.delivered ∙ same_parts.0);
    waiting = g.waiting;
    messages = g.messages ∙ same_parts.1;
    expecting = g.expecting;
    sound = g.sound;
    range = record { slot = g.range.slot; index = g.range.index };
    slot_same = g.slot_same;
    moved = g.moved;
    stored = g.stored;
    ring = g.ring ∙ left-ring a s seq d sound range expecting slot at_slot r;
    write = g.write ∙ left-write a s seq d sound range expecting slot at_slot r;
    others = λ k o ne.
        Keeping-trans s now q.shared k o
          (left-Keeping a s seq d sound range expecting slot at_slot r k o (inr ne))
          (g.others k o ne);
    other_reads =
        λ k ne. g.other_reads k ne ∙ left-reads a s seq d sound range expecting slot at_slot r k ne;
  }

-- On a well-formed mapping, with every event write answered, `read_data` of descriptors that are ready for
-- the slot delivers exactly their messages, in order and without an error; what is ready behind them
-- stays so, with the same messages, the stored read index is the one that the attachment has moved to,
-- and no other slot loses a message.
pub read_data-Given :
    (signal : ℕ → Bool) (n : ℕ) (a : PublisherAttachment) (s : SharedData) (slot seq : ℕ)
    (ds rest : List MessageDescriptor)
    → ((i : ℕ) → signal i ≡ true)
    → Sound s
    → InRange a
    → a.slot_index ≡ slot
    → s.descriptor_read_indices slot ≡ a.subscriber_read_index
    → Expecting a seq
    → AllReady s slot seq (ds ++ rest)
    → Given s slot a.subscriber_read_index seq ds rest (read_data signal n ds a s)
unfolding read_data
read_data-Given signal n a s slot seq [] rest answered sound range at_slot stored expecting ready =
    record {
      error = refl;
      delivered = refl;
      waiting = ready;
      messages = refl;
      expecting = expecting;
      sound = sound;
      range = range;
      slot_same = at_slot;
      moved = refl;
      stored = stored;
      ring = refl;
      write = refl;
      others = λ k q ne. Keeping-refl s k q;
      other_reads = λ k ne. refl;
    }
read_data-Given signal n a s slot seq (d ∷ ds) rest answered sound range at_slot stored expecting
      (r, out, ready) =
    let b = read_on a seq in
    let t = left a s seq d sound range expecting slot at_slot r in
    rw
      (
        read_data,
        r.class,
        answered n,
        read_one a s seq d sound range expecting slot at_slot r (read_data signal (n + 1) ds),
      )
      (deliver-Given a s seq d ds rest sound range expecting slot at_slot r out ready _ (
        subst (λ i. Given t slot i ((seq + 1) % word_mod) ds rest (read_data signal (n + 1) ds b t))
          (read_on-index a s seq d sound range expecting slot at_slot r)
          (read_data-Given signal (n + 1) b t slot ((seq + 1) % word_mod) ds rest answered
            (left-Sound a s seq d sound range expecting slot at_slot r)
            (read_on-InRange a s seq d sound range expecting slot at_slot r)
            (read_on-slot a s seq d sound range expecting slot at_slot r)
            (left-own a s seq d sound range expecting slot at_slot r
              ∙ sym (read_on-index a s seq d sound range expecting slot at_slot r))
            (read_on-Expecting a s seq d sound range expecting slot at_slot r)
            (later a s seq d ds rest sound range expecting slot at_slot r out ready))))
