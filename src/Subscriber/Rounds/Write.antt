-- ===== src/Subscriber/Rounds/Write.antt =====
-- Reading leaves the write index, src/subscriber.cpp.
use drive_bus.Prelude.{
  ℕ, ◌+◌, ◌-◌, ◌≡◌, inl, inr, refl, List, [], ◌∷◌, Option, none, some, Bool, Bool-cases, true,
  false, not, ltb, ◌||◌, ◌==◌, if◌then◌else◌, ◌∙◌,
}
use drive_bus.Layout.{MessageDescriptor, find_size_class, first_offset, last_offset, magic}
use drive_bus.Bytes.{load_word, load_bytes}
use drive_bus.Shared.{SharedData}
use drive_bus.FreeList.{set_in_use, append_chunk}
use drive_bus.Mask.{slot_bit}
use drive_bus.Layout.{local_chunk_index, chunk_index_of}
use drive_bus.References.{Dropped, held, freed, double_free, drop_reference}
use drive_bus.Subscriber.{
  PublisherAttachment, Reading, advance, store_read_index, after_drop, deliver, read_checked,
  expect_seq, read_sized, read_data,
}

drop_reference-write :
    (s : SharedData) (c offset slot : ℕ)
    → (drop_reference s c offset slot).0.descriptor_write_index ≡ s.descriptor_write_index
unfolding drop_reference set_in_use append_chunk
drop_reference-write s c offset slot =
    elim (Bool-cases (s.chunk_reference_counts (chunk_index_of c offset) == slot_bit slot)) [
      | inr e ↦ rw e refl
      | inl e ↦ elim (Bool-cases (s.is_in_use c (local_chunk_index c offset))) [
        | inl f ↦ rw (e, f) refl
        | inr f ↦ rw (e, f) refl
      ]
    ]

-- A reading leaves the write index.
abbrev pub At : ℕ → Reading → Type 0
At w r = r.shared.descriptor_write_index ≡ w

after_drop-At :
    (signalled : Bool) (a : PublisherAttachment) (payload : List ℕ) (r : SharedData × Dropped)
    (next : PublisherAttachment → SharedData → Reading) (w : ℕ)
    → r.0.descriptor_write_index ≡ w
    → ((t : SharedData) → t.descriptor_write_index ≡ w → At w (next a t))
    → At w (after_drop signalled a payload r next)
unfolding after_drop
after_drop-At signalled a payload (s, held) next w e h = h s e
after_drop-At signalled a payload (s, double_free) next w e h = e
after_drop-At true a payload (s, freed) next w e h = h s e
after_drop-At false a payload (s, freed) next w e h = e

either : (w : ℕ) (b : Bool) (r r' : Reading) → At w r → At w r' → At w (if b then r else r')
either w true r r' p q = p
either w false r r' p q = q

-- What the rest of the loop does.
abbrev Rest : (PublisherAttachment → SharedData → Reading) → Type 0
Rest next = (a : PublisherAttachment) (t : SharedData) → At t.descriptor_write_index (next a t)

read_checked-At :
    (signalled : Bool) (a : PublisherAttachment) (s : SharedData) (c : ℕ) (d : MessageDescriptor)
    (next : PublisherAttachment → SharedData → Reading)
    → Rest next
    → At s.descriptor_write_index (read_checked signalled a s c d next)
unfolding read_checked advance deliver store_read_index
read_checked-At signalled a s c d next h =
    after_drop-At signalled (advance a) (load_bytes s.pool (d.offset + 8) (d.len - 8))
      (
        store_read_index (drop_reference s c d.offset a.slot_index).0 a.slot_index
            (advance a).subscriber_read_index,
        (drop_reference s c d.offset a.slot_index).1,
      )
      (λ b t. deliver (load_bytes s.pool (d.offset + 8) (d.len - 8)) (next b t))
      s.descriptor_write_index (drop_reference-write s c d.offset a.slot_index)
      (λ t e. h (advance a) t ∙ e)

read_sized-At :
    (signalled : Bool) (a : PublisherAttachment) (s : SharedData) (class : Option ℕ)
    (d : MessageDescriptor) (next : PublisherAttachment → SharedData → Reading)
    → Rest next
    → At s.descriptor_write_index (read_sized signalled a s class d next)
unfolding read_sized
read_sized-At signalled a s none d next h = refl
read_sized-At signalled a s (some c) d next h =
    let seq = load_word s.pool (d.offset + 4) in
    either _ (ltb d.offset (first_offset c) || ltb (last_offset c) d.offset) _ _ refl (
      either _ (ltb d.len 8) _ _ refl (
        either _
          (not (load_word s.pool d.offset == magic) || not (seq == (expect_seq a seq).expected_seq))
          _ _ refl (read_checked-At signalled (expect_seq a seq) s c d next h)))

pub read_data-At :
    (signal : ℕ → Bool) (n : ℕ) (ds : List MessageDescriptor) → Rest (read_data signal n ds)
unfolding read_data
read_data-At signal n [] a s = refl
read_data-At signal n (d ∷ ds) a s =
    read_sized-At (signal n) a s (find_size_class d.len) d _ (read_data-At signal (n + 1) ds)
