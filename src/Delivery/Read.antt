-- ===== src/Delivery/Read.antt =====
-- `Subscriber::read_data` of src/subscriber.cpp gives what the subscriber has to read, in order.
use mathlib.Core.Path.{ap₂}
use drive_bus.Prelude.{
  ℕ, ◌+◌, ◌%◌, ◌≡◌, ◌≢◌, ◌⊎◌, inl, inr, List, some, true, false, Bool-cases, not, ltb, ◌||◌, ◌==◌,
  ==_iff, ==_refl, refl, arith, ◌∙◌, ap,
}
use drive_bus.Layout.{MessageDescriptor, word_mod, first_offset, last_offset, magic}
use drive_bus.Layout.Chunks.{chunk_offset-Placed}
use drive_bus.Bytes.{load_word}
use drive_bus.Shared.{SharedData}
use drive_bus.References.{Dropped, held, freed, double_free, drop_reference}
use drive_bus.Subscriber.{
  PublisherAttachment, no_seq, Reading, step_index, advance, store_read_index, after_drop, deliver,
  read_checked, expect_seq, read_sized,
}
use drive_bus.Sound.{Sound}
use drive_bus.Sound.Drop.{Dropping, described-Dropping}
use drive_bus.Sound.Read.{InRange, store_read_index-Sound}
use drive_bus.Delivery.{message_at, Ready}
use drive_bus.Delivery.Frame.{Keeping}
use drive_bus.Delivery.Drop.{drop_reference-Keeping}

-- A chunk that is dropped without a double free is signalled, and the loop goes on.
after_drop-step :
    (a : PublisherAttachment) (payload : List ℕ) (r : SharedData × Dropped)
    (next : PublisherAttachment → SharedData → Reading)
    → r.1 ≢ double_free
    → after_drop true a payload r next ≡ next a r.0
unfolding after_drop
after_drop-step a payload (s, held) next h = refl
after_drop-step a payload (s, freed) next h = refl
after_drop-step a payload (s, double_free) next h = absurd (h refl)

-- The attachment expects the number `seq`, or any.
abbrev pub Expecting : PublisherAttachment → ℕ → Type 0
Expecting a seq = (a.expected_seq ≡ no_seq) ⊎ (a.expected_seq ≡ seq)

expect_seq-lem :
    (a : PublisherAttachment) (seq : ℕ) → Expecting a seq → (expect_seq a seq).expected_seq ≡ seq
expect_seq-lem a seq h = elim (Bool-cases (a.expected_seq == no_seq)) [
  | inl e ↦ rw e refl
  | inr e ↦ rw e (ground (arith, ==_iff a.expected_seq no_seq, h))
]

-- The attachment and the mapping after one message.
abbrev pub read_on : PublisherAttachment → ℕ → PublisherAttachment
read_on a seq = advance (expect_seq a seq)

abbrev pub drop_on : SharedData → ℕ → MessageDescriptor → ℕ → ℕ → SharedData
drop_on s c d slot index =
    store_read_index (drop_reference s c d.offset slot).0 slot (step_index index)

read_checked-step :
    (a : PublisherAttachment) (s : SharedData) (c : ℕ) (d : MessageDescriptor)
    (next : PublisherAttachment → SharedData → Reading)
    → (drop_reference s c d.offset a.slot_index).1 ≢ double_free
    → read_checked true a s c d next
      ≡ deliver
          (message_at s.pool d)
          (next (advance a) (drop_on s c d a.slot_index a.subscriber_read_index))
unfolding read_checked advance
read_checked-step a s c d next h =
    after_drop-step (advance a) (message_at s.pool d)
      (
        drop_on s c d a.slot_index a.subscriber_read_index,
        (drop_reference s c d.offset a.slot_index).1,
      )
      (λ b t. deliver (message_at s.pool d) (next b t)) h

-- One message that is ready.
module _ (a : PublisherAttachment) (s : SharedData) (seq : ℕ) (d : MessageDescriptor)
    (sound : Sound s) (range : InRange a) (expecting : Expecting a seq) (slot : ℕ)
    (at_slot : a.slot_index ≡ slot) (r : Ready s slot seq d) where
  drops :
      Dropping s
        (drop_reference s r.size_class d.offset slot).0
        (drop_reference s r.size_class d.offset slot).1
  drops =
      described-Dropping s r.size_class d.offset slot r.small (r.number, r.few, r.place)
        (omega (arith, range.slot)) sound

  expect_seq-same :
      ((expect_seq a seq).slot_index ≡ a.slot_index)
      × ((expect_seq a seq).subscriber_read_index ≡ a.subscriber_read_index)
  expect_seq-same = elim (Bool-cases (a.expected_seq == no_seq)) [
    | inl e ↦ rw e (refl, refl)
    | inr e ↦ rw e (refl, refl)
  ]

  in_range :
      (ltb d.offset (first_offset r.size_class) || ltb (last_offset r.size_class) d.offset) ≡ false
  in_range =
      let placed = chunk_offset-Placed r.size_class r.number r.small r.few in
      ground (arith, placed.first, placed.last, r.place)

  genuine :
      (not (load_word s.pool d.offset == magic) || not (seq == (expect_seq a seq).expected_seq))
      ≡ false
  genuine = rw (r.begins, expect_seq-lem a seq expecting, ==_refl seq) refl

  read_passed :
      (next : PublisherAttachment → SharedData → Reading)
      → read_sized true a s (some r.size_class) d next
        ≡ read_checked true (expect_seq a seq) s r.size_class d next
  unfolding read_sized
  read_passed next =
      let long : ltb d.len 8 ≡ false = ground (arith, r.header) in
      rw (r.numbered, in_range, long, genuine) refl

  pub read_one :
      (next : PublisherAttachment → SharedData → Reading)
      → read_sized true a s (some r.size_class) d next
        ≡ deliver
            (message_at s.pool d)
            (next (read_on a seq) (drop_on s r.size_class d slot a.subscriber_read_index))
  read_one next =
      read_passed next
      ∙ (read_checked-step (expect_seq a seq) s r.size_class d next
            (rw (expect_seq-same.0 ∙ at_slot) drops.found)
          ∙ ap₂
              (λ k i.
                deliver (message_at s.pool d) (next (read_on a seq) (drop_on s r.size_class d k i)))
              (expect_seq-same.0 ∙ at_slot) expect_seq-same.1)

  abbrev pub left : SharedData
  left = drop_on s r.size_class d slot a.subscriber_read_index

  pub left-Sound : Sound left
  left-Sound =
      store_read_index-Sound (drop_reference s r.size_class d.offset slot).0 slot
        (step_index a.subscriber_read_index) (ground (arith, range.index)) drops.sound

  pub left-Keeping : (k q : ℕ) → (d.offset ≢ q) ⊎ (slot ≢ k) → Keeping s left k q
  unfolding store_read_index
  left-Keeping k q h =
      let kept =
        drop_reference-Keeping s r.size_class d.offset slot k q r.small (r.number, r.few, r.place)
          (omega (arith, range.slot)) sound h in
      record { bits = kept.bits; bytes = kept.bytes }

  pub left-ring : left.desc_ring ≡ s.desc_ring
  unfolding store_read_index
  left-ring = drops.ring

  pub left-write : left.descriptor_write_index ≡ s.descriptor_write_index
  unfolding store_read_index
  left-write = drops.write

  pub left-own : left.descriptor_read_indices slot ≡ step_index a.subscriber_read_index
  unfolding store_read_index
  left-own = rw (==_refl slot) refl

  pub left-reads : (k : ℕ) → slot ≢ k → left.descriptor_read_indices k ≡ s.descriptor_read_indices k
  unfolding store_read_index
  left-reads k ne =
      let apart : (slot == k) ≡ false = ground (arith, ==_iff slot k) in
      rw (drops.reads, apart) refl

  pub read_on-slot : (read_on a seq).slot_index ≡ slot
  unfolding advance
  read_on-slot = expect_seq-same.0 ∙ at_slot

  pub read_on-index : (read_on a seq).subscriber_read_index ≡ step_index a.subscriber_read_index
  unfolding advance
  read_on-index = ap (λ i. step_index i) expect_seq-same.1

  pub read_on-InRange : InRange (read_on a seq)
  read_on-InRange = record {
    slot = omega (arith, range.slot, read_on-slot);
    index = ground (arith, range.index, read_on-index);
  }

  pub read_on-Expecting : Expecting (read_on a seq) ((seq + 1) % word_mod)
  unfolding advance
  read_on-Expecting = inr (ap (λ (n : ℕ). (n + 1) % word_mod) (expect_seq-lem a seq expecting))
