-- ===== src/Sound/Read.antt =====
-- `Subscriber::read_data` and `Subscriber::handle_data_available_event` of src/subscriber.cpp on a
-- well-formed mapping.
use drive_bus.Prelude.{
  ℕ, zero, suc, ◌+◌, ◌≤◌, ◌<◌, inl, inr, List, [], ◌∷◌, some, Bool, true, false, Bool-cases, not,
  ltb, ◌||◌, ◌==◌, refl, arith, if◌then◌else◌,
}
use drive_bus.Layout.{MessageDescriptor, first_offset, last_offset, magic}
use drive_bus.Bytes.{load_word}
use drive_bus.Shared.{SharedData}
use drive_bus.FreeList.Chain.{IsChunk}
use drive_bus.References.{Dropped, held, freed, double_free, drop_reference}
use drive_bus.Subscriber.{
  PublisherAttachment, no_seq, Reading, stop_reading, advance, store_read_index, after_drop,
  deliver, read_checked, expect_seq, read_sized, read_data, slice,
}
use drive_bus.Sound.{Sound, Described}
use drive_bus.Sound.Frame.{FreeList-same}
use drive_bus.Sound.Drop.{described-Dropping}

-- A subscriber stores a read index of the ring.
pub store_read_index-Sound :
    (s : SharedData) (slot index : ℕ) → index < 16 → Sound s → Sound (store_read_index s slot index)
unfolding store_read_index
store_read_index-Sound s slot index small sound = record {
  lists = λ c hc.
      let (free, l) = sound.lists c hc in
      (free, FreeList-same s _ c free refl refl (λ j. refl) refl l);
  ring = sound.ring;
  indices = record {
    write = sound.indices.write;
    reads = λ k hk. elim (Bool-cases (slot == k)) [
      | inl e ↦ rw e (inr small)
      | inr e ↦ rw e (sound.indices.reads k hk)
    ];
  };
  counted = sound.counted;
}

-- An attachment whose slot and read index are in range.
pub record InRange (a : PublisherAttachment) : Type 0 where
  pub slot : a.slot_index < 16
  pub index : a.subscriber_read_index < 16

-- What a reading leaves.
pub record Sane (r : Reading) : Type 0 where
  pub sound : Sound r.shared
  pub range : InRange r.attachment

abbrev Rest : (PublisherAttachment → SharedData → Reading) → Type 0
Rest next = (a : PublisherAttachment) (s : SharedData) → InRange a → Sound s → Sane (next a s)

advance-InRange : (a : PublisherAttachment) → InRange a → InRange (advance a)
unfolding advance
advance-InRange a h = record { slot = h.slot; index = ground (arith, h.index) }

expect_seq-InRange : (a : PublisherAttachment) (seq : ℕ) → InRange a → InRange (expect_seq a seq)
expect_seq-InRange a seq h = elim (Bool-cases (a.expected_seq == no_seq)) [
  | inl e ↦ rw e (record { slot = h.slot; index = h.index })
  | inr e ↦ rw e h
]

deliver-Sane : (payload : List ℕ) (r : Reading) → Sane r → Sane (deliver payload r)
unfolding deliver
deliver-Sane payload r h = record { sound = h.sound; range = h.range }

after_drop-Sane :
    (signalled : Bool) (a : PublisherAttachment) (payload : List ℕ) (r : SharedData × Dropped)
    (next : PublisherAttachment → SharedData → Reading)
    → InRange a
    → Sound r.0
    → Rest next
    → Sane (after_drop signalled a payload r next)
unfolding after_drop
after_drop-Sane signalled a payload (s, held) next h sound rest = rest a s h sound
after_drop-Sane signalled a payload (s, double_free) next h sound rest = record {
  sound = sound;
  range = h;
}
after_drop-Sane true a payload (s, freed) next h sound rest = rest a s h sound
after_drop-Sane false a payload (s, freed) next h sound rest = record { sound = sound; range = h }

read_checked-Sane :
    (signalled : Bool) (a : PublisherAttachment) (s : SharedData) (c : ℕ) (d : MessageDescriptor)
    (next : PublisherAttachment → SharedData → Reading)
    → c < 5
    → IsChunk c d.offset
    → InRange a
    → Sound s
    → Rest next
    → Sane (read_checked signalled a s c d next)
unfolding read_checked
read_checked-Sane signalled a s c d next hc chunk h sound rest =
    after_drop-Sane signalled (advance a) _
      (
        store_read_index t a.slot_index (advance a).subscriber_read_index,
        (drop_reference s c d.offset a.slot_index).1,
      )
      (λ b t. deliver _ (next b t)) (advance-InRange a h)
      (store_read_index-Sound t a.slot_index (advance a).subscriber_read_index
        (advance-InRange a h).index
        (described-Dropping s c d.offset a.slot_index hc chunk (omega (arith, h.slot)) sound).sound)
      (λ b t h' sound'. deliver-Sane _ (next b t) (rest b t h' sound'))
  where
    t : SharedData
    t = (drop_reference s c d.offset a.slot_index).0

stopped-Sane :
    (a : PublisherAttachment) (s : SharedData) → InRange a → Sound s → Sane (stop_reading a s [])
stopped-Sane a s h sound = record { sound = sound; range = h }

either : (b : Bool) {r r' : Reading} → Sane r → Sane r' → Sane (if b then r else r')
either true p q = p
either false p q = q

read_sized-Sane :
    (signalled : Bool) (a : PublisherAttachment) (s : SharedData) (c : ℕ) (d : MessageDescriptor)
    (next : PublisherAttachment → SharedData → Reading)
    → c < 5
    → IsChunk c d.offset
    → InRange a
    → Sound s
    → Rest next
    → Sane (read_sized signalled a s (some c) d next)
unfolding read_sized
read_sized-Sane signalled a s c d next hc chunk h sound rest =
    either (ltb d.offset (first_offset c) || ltb (last_offset c) d.offset)
      (stopped-Sane a s h sound)
      (either (ltb d.len 8) (stopped-Sane a s h sound) (
        either (not (load_word s.pool d.offset == magic) || not (seq == a'.expected_seq))
          (stopped-Sane a' s h' sound)
          (read_checked-Sane signalled a' s c d next hc chunk h' sound rest)))
  where
    seq : ℕ
    seq = load_word s.pool (d.offset + 4)

    a' : PublisherAttachment
    a' = expect_seq a seq

    h' : InRange a'
    h' = expect_seq-InRange a seq h

-- Every descriptor of a copy names a chunk.
abbrev pub AllDescribed : List MessageDescriptor → Type 0
AllDescribed [] = Unit {0}
AllDescribed (d ∷ ds) = Described d × AllDescribed ds

pub slice-AllDescribed :
    (s : SharedData) (i n : ℕ) → i + n ≤ 16 → Sound s → AllDescribed (slice s.desc_ring i n)
unfolding slice
slice-AllDescribed s i zero h sound = tt
slice-AllDescribed s i (suc n) h sound =
    (sound.ring i (omega arith), slice-AllDescribed s (i + 1) n (omega arith) sound)

-- Reading described messages of a well-formed mapping, however far it comes, leaves the mapping
-- well-formed and the slot and the read index of the attachment in range.
pub read_data-Sane :
    (signal : ℕ → Bool) (n : ℕ) (ds : List MessageDescriptor) (a : PublisherAttachment)
    (s : SharedData)
    → AllDescribed ds
    → InRange a
    → Sound s
    → Sane (read_data signal n ds a s)
unfolding read_data
read_data-Sane signal n [] a s ok h sound = record { sound = sound; range = h }
read_data-Sane signal n (d ∷ ds) a s ((c, hc, class, chunk), ok) h sound =
    rw (class, read_data)
      (read_sized-Sane (signal n) a s c d _ hc chunk h sound
        (λ b t h' sound'. read_data-Sane signal (n + 1) ds b t ok h' sound'))
