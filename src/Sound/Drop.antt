-- ===== src/Sound/Drop.antt =====
-- `release_chunk_references_in_descriptor_range` of src/publisher.cpp and `read_data` of
-- src/subscriber.cpp drop references: they keep the mapping well-formed.
use mathlib.Core.Path.{ap₂}
use drive_bus.Prelude.{
  ℕ, ◌+◌, ◌^◌, ◌≤◌, ◌<◌, ◌≡◌, ◌≢◌, ◌⊎◌, List, [], ◌∷◌, ◌++◌, Bool, true, false, ◌==◌, ==_iff, refl,
  ap, sym, subst, arith, ℕ_discrete, ◌∙◌, update,
}
use drive_bus.Layout.{chunk_count_by_size_class}
use drive_bus.Layout.Chunks.{Placed, chunk_offset, chunk_offset-Placed, chunk_number}
use drive_bus.Mask.{slot_bit, clear_bit}
use drive_bus.Mask.Laws.{clear_bit-le, clear_bit-slot_bit, slot_bit-small, slot_bit-some}
use drive_bus.Shared.{SharedData}
use drive_bus.FreeList.{set_in_use, append_chunk}
use drive_bus.FreeList.Chain.{member, member-append, IsChunk, class_size_bytes-le-16}
use drive_bus.FreeList.Queue.{FreeList, All-last, append_chunk-FreeList}
use drive_bus.References.{Dropped, held, freed, double_free, drop_reference}
use drive_bus.Sound.{Sound, Untouched}
use drive_bus.Sound.Frame.{store_word-outside, FreeList-other, FreeList-same, used-apart}

-- The last chunk of a list is not in use.
tail_unused :
    (s : SharedData) (c : ℕ) (free : List ℕ)
    → FreeList s c free
    → (j : ℕ) × (j < chunk_count_by_size_class c)
      × (s.tail c ≡ chunk_offset c j)
      × (s.is_in_use c j ≡ false)
unfolding member
tail_unused s c free l =
    let (j, hj, e) = All-last (IsChunk c) free (s.tail c) l.chunks in
    (
      j,
      hj,
      e,
      ground (arith, l.tracked j hj, member-append (chunk_offset c j) free (s.tail c ∷ [])),
    )

-- A mark other than that of a chunk.
other_mark :
    (marks : ℕ → ℕ → Bool) (c i d j : ℕ)
    → chunk_number c i ≢ chunk_number d j
    → update marks c (update (marks c) i false) d j ≡ marks d j
other_mark marks c i d j ne = elim (ℕ_discrete c d) [
  | yes e ↦ elim (ℕ_discrete i j) [
    | yes f ↦ absurd (ne (ap₂ chunk_number e f))
    | no other ↦
        let f : (i == j) ≡ false = ground (arith, ==_iff i j) in
        (let g : (c == d) ≡ true = ground (arith, ==_iff c d) in rw (g, f) (ap (λ d. marks d j) e))
  ]
  | no other ↦ let f : (c == d) ≡ false = ground (arith, ==_iff c d) in rw f refl
]

-- What dropping a reference to a chunk keeps, and what it never finds.
pub record Dropping (s t : SharedData) (d : Dropped) : Type 0 where
  pub sound : Sound t
  pub untouched : Untouched s t
  pub found : d ≢ double_free
  pub marks : (c i : ℕ) → t.is_in_use c i ≡ true → s.is_in_use c i ≡ true
  pub ring : t.desc_ring ≡ s.desc_ring
  pub reads : t.descriptor_read_indices ≡ s.descriptor_read_indices
  pub write : t.descriptor_write_index ≡ s.descriptor_write_index

module _ (s : SharedData) (c i slot : ℕ) (hc : c < 5) (hi : i < chunk_count_by_size_class c)
    (sound : Sound s) where
  abbrev cleared : SharedData
  cleared = record s {
    chunk_reference_counts =
        update s.chunk_reference_counts (chunk_number c i)
          (clear_bit (s.chunk_reference_counts (chunk_number c i)) slot);
  }

  cleared-Sound : Sound cleared
  cleared-Sound = record {
    lists = λ d hd.
        let (free, l) = sound.lists d hd in
        (free, FreeList-same s cleared d free refl refl (λ j. refl) refl l);
    ring = sound.ring;
    indices = record { write = sound.indices.write; reads = sound.indices.reads };
    counted = λ d j hd hj h. sound.counted d j hd hj (λ none_left.
        h (ground (arith, clear_bit-le (s.chunk_reference_counts (chunk_number c i)) slot)));
  }

  -- The chunk is marked free and linked behind the tail.
  abbrev appended : SharedData
  appended = append_chunk (set_in_use cleared c i false) c (chunk_offset c i)

  appended-own :
      (free : List ℕ)
      → FreeList s c free
      → s.is_in_use c i ≡ true
      → FreeList appended c (free ++ s.tail c ∷ [])
  appended-own free l used =
      append_chunk-FreeList cleared c i free hc hi
        (FreeList-same s cleared c free refl refl (λ j. refl) refl l) used

  outside_tail : (y : ℕ) → (y < s.tail c) ⊎ (s.tail c + 4 ≤ y) → appended.pool y ≡ s.pool y
  unfolding append_chunk set_in_use
  outside_tail y h = store_word-outside s.pool (s.tail c) (chunk_offset c i) y h

  appended-other :
      (d : ℕ) (free own : List ℕ)
      → d < 5
      → c ≢ d
      → FreeList s c own
      → FreeList s d free
      → FreeList appended d free
  unfolding append_chunk set_in_use
  appended-other d free own hd ne o l =
      FreeList-other s appended d c (s.tail c) free hd hc (λ e. ne (sym e))
        (All-last (IsChunk c) own (s.tail c) o.chunks) refl (rw apart refl) (λ j. rw apart refl)
        (λ y h. outside_tail y (ground (arith, class_size_bytes-le-16 c hc))) l
    where
      apart : (c == d) ≡ false
      apart = ground (arith, ==_iff c d)

  appended-Sound :
      s.chunk_reference_counts (chunk_number c i) ≡ slot_bit slot
      → slot < 32
      → s.is_in_use c i ≡ true
      → Sound appended
  unfolding append_chunk set_in_use
  appended-Sound last hs used = record {
    lists = λ d hd. elim (ℕ_discrete c d) [
      | yes e ↦
          let (own, o) = sound.lists c hc in
          (
            own ++ s.tail c ∷ [],
            subst (λ d. FreeList appended d (own ++ s.tail c ∷ [])) e (appended-own own o used),
          )
      | no ne ↦
          let (free, l) = sound.lists d hd in
          (free, appended-other d free (sound.lists c hc).0 hd ne (sound.lists c hc).1 l)
    ];
    ring = sound.ring;
    indices = record { write = sound.indices.write; reads = sound.indices.reads };
    counted = λ d j hd hj h. elim (ℕ_discrete (chunk_number c i) (chunk_number d j)) [
      | yes e ↦ absurd (h (subst (λ n. appended.chunk_reference_counts n ≡ 0) e nothing_left))
      | no ne ↦ other_mark s.is_in_use c i d j ne ∙ sound.counted d j hd hj (ground (arith, h))
    ];
  }
    where
      nothing_left : appended.chunk_reference_counts (chunk_number c i) ≡ 0
      nothing_left =
          let e : slot_bit slot ≡ 2 ^ slot = slot_bit-small slot hs in
          ground (arith, clear_bit-slot_bit slot)

  appended-Untouched : s.is_in_use c i ≡ true → Untouched s appended
  appended-Untouched used d j x hd hj u lo hi' =
      let (k, hk, e, free) = tail_unused s c (sound.lists c hc).0 (sound.lists c hc).1 in
      outside_tail x
        (ground (arith, used-apart s d j c k hd hc hj hk u free, class_size_bytes-le-16 c hc))

  held-Dropping : Dropping s cleared held
  held-Dropping = record {
    sound = cleared-Sound;
    untouched = λ d j x hd hj u lo hi'. refl;
    found = λ e. absurd (ground arith);
    marks = λ d j u. u;
    ring = refl;
    reads = refl;
    write = refl;
  }

  freed-Dropping :
      s.chunk_reference_counts (chunk_number c i) ≡ slot_bit slot
      → slot < 32
      → s.is_in_use c i ≡ true
      → Dropping s appended freed
  unfolding append_chunk set_in_use
  freed-Dropping last hs used = record {
    sound = appended-Sound last hs used;
    untouched = appended-Untouched used;
    found = λ e. absurd (ground arith);
    marks = λ d j u. ground arith;
    ring = refl;
    reads = refl;
    write = refl;
  }

  drop_reference-Dropping :
      slot < 32
      → Dropping s
          (drop_reference s c (chunk_offset c i) slot).0
          (drop_reference s c (chunk_offset c i) slot).1
  unfolding drop_reference
  drop_reference-Dropping hs =
      rw placed.local
        (elim (ℕ_discrete (s.chunk_reference_counts (chunk_number c i)) (slot_bit slot)) [
          | yes e ↦
              let used : s.is_in_use c i ≡ true =
                sound.counted c i hc hi (λ z. slot_bit-some slot hs (sym e ∙ z)) in
              rw (==_iff_yes e, used) (freed-Dropping e hs used)
          | no ne ↦ rw (==_iff_no ne) held-Dropping
        ])
    where
      placed : Placed c i
      placed = chunk_offset-Placed c i hc hi

      ==_iff_yes : {a b : ℕ} → a ≡ b → (a == b) ≡ true
      ==_iff_yes e = ground (arith, ==_iff _ _)

      ==_iff_no : {a b : ℕ} → a ≢ b → (a == b) ≡ false
      ==_iff_no ne = ground (arith, ==_iff _ _)

-- Dropping the reference of a slot to a described message.
pub described-Dropping :
    (s : SharedData) (c o slot : ℕ)
    → c < 5
    → IsChunk c o
    → slot < 32
    → Sound s
    → Dropping s (drop_reference s c o slot).0 (drop_reference s c o slot).1
described-Dropping s c o slot hc (i, hi, e) hs sound =
    subst (λ o. Dropping s (drop_reference s c o slot).0 (drop_reference s c o slot).1) (sym e)
      (drop_reference-Dropping s c i slot hc hi sound hs)
