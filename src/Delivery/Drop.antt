-- ===== src/Delivery/Drop.antt =====
-- Dropping references (`read_data` of src/subscriber.cpp and
-- `release_chunk_references_in_descriptor_range` of src/publisher.cpp) takes no message from another
-- slot.
use mathlib.Core.Path.{ap₂}
use drive_bus.Prelude.{
  ℕ, ◌<◌, ◌≡◌, ◌≢◌, ◌⊎◌, inl, inr, true, false, Bool-cases, ◌==◌, ==_iff, refl, sym, ◌∙◌, arith,
  update, ℕ_discrete,
}
use drive_bus.Layout.{chunk_count_by_size_class, local_chunk_index, chunk_index_of}
use drive_bus.Layout.Chunks.{
  chunk_offset, chunk_offset-Placed, chunk_number, chunk_number-injective,
}
use drive_bus.Mask.{slot_bit, test_bit, clear_bit}
use drive_bus.Mask.Laws.{test_bit-clear_bit, test_bit-zero}
use drive_bus.Shared.{SharedData}
use drive_bus.FreeList.{set_in_use, append_chunk}
use drive_bus.FreeList.Chain.{IsChunk}
use drive_bus.References.{drop_reference}
use drive_bus.Sound.{Sound}
use drive_bus.Sound.Drop.{Dropping, described-Dropping}
use drive_bus.Delivery.Frame.{Keeping}

-- Whatever else a drop does, one mask loses one bit.
drop_reference-counts :
    (s : SharedData) (c o slot : ℕ)
    → (drop_reference s c o slot).0.chunk_reference_counts
      ≡ update s.chunk_reference_counts
          (chunk_index_of c o)
          (clear_bit (s.chunk_reference_counts (chunk_index_of c o)) slot)
unfolding drop_reference append_chunk set_in_use
drop_reference-counts s c o slot =
    elim (Bool-cases (s.chunk_reference_counts (chunk_index_of c o) == slot_bit slot)) [
      | inr e ↦ rw e refl
      | inl e ↦ elim (Bool-cases (s.is_in_use c (local_chunk_index c o))) [
        | inl u ↦ rw (e, u) refl
        | inr u ↦ rw (e, u) refl
      ]
    ]

-- Clearing a bit in one mask keeps the other bits and masks.
update-clear_bit :
    (masks : ℕ → ℕ) (n m slot k : ℕ)
    → (n ≡ m → slot ≢ k)
    → test_bit (masks m) k ≡ true
    → test_bit (update masks n (clear_bit (masks n) slot) m) k ≡ true
update-clear_bit masks n m slot k apart bit = elim (ℕ_discrete n m) [
  | no ne ↦ let f : (n == m) ≡ false = ground (arith, ==_iff n m) in rw f bit
  | yes e ↦
      let f : (n == m) ≡ true = ground (arith, ==_iff n m) in
      let g : (slot == k) ≡ false = ground (arith, ==_iff slot k, apart e) in
      rw (f, e, test_bit-clear_bit (masks m) slot k, g) bit
]

-- A slot that references a chunk of a well-formed mapping has it in use.
pub referenced-used :
    (s : SharedData) (c i slot : ℕ)
    → c < 5
    → i < chunk_count_by_size_class c
    → Sound s
    → test_bit (s.chunk_reference_counts (chunk_number c i)) slot ≡ true
    → s.is_in_use c i ≡ true
referenced-used s c i slot hc hi sound bit =
    sound.counted c i hc hi
      (λ e. absurd (let f = rw e at bit in ground (arith, test_bit-zero slot)))

-- The drop of a slot's reference to the chunk at `o` is none to a chunk elsewhere, or of another slot.
pub drop_reference-Keeping :
    (s : SharedData) (c o slot k q : ℕ)
    → c < 5
    → IsChunk c o
    → slot < 32
    → Sound s
    → (o ≢ q) ⊎ (slot ≢ k)
    → Keeping s (drop_reference s c o slot).0 k q
drop_reference-Keeping s c o slot k q hc (i, hi, e) hs sound apart = record {
  bits = bits;
  bytes = λ d j x hd hj f bit lo hi'.
      drops.untouched d j x hd hj (referenced-used s d j k hd hj sound bit) (omega arith)
        (omega arith);
}
  where
    t : SharedData
    t = (drop_reference s c o slot).0

    drops : Dropping s t (drop_reference s c o slot).1
    drops = described-Dropping s c o slot hc (i, hi, e) hs sound

    index : chunk_index_of c o ≡ chunk_number c i
    index = rw e (chunk_offset-Placed c i hc hi).index

    bits :
        (d j : ℕ)
        → d < 5
        → j < chunk_count_by_size_class d
        → q ≡ chunk_offset d j
        → test_bit (s.chunk_reference_counts (chunk_number d j)) k ≡ true
        → test_bit (t.chunk_reference_counts (chunk_number d j)) k ≡ true
    bits d j hd hj f bit =
        rw (drop_reference-counts s c o slot, index)
          (update-clear_bit s.chunk_reference_counts (chunk_number c i) (chunk_number d j) slot k
            (λ same. elim apart [
              | inl ne ↦
                  let (e1, e2) = chunk_number-injective i j c d hc hd hi hj same in
                  absurd (ne (e ∙ (ap₂ (λ (a b : ℕ). chunk_offset a b) e1 e2 ∙ sym f)))
              | inr ne ↦ ne
            ])
            bit)
