-- ===== src/Sound/Publish.antt =====
-- `Publisher::try_publish_one` of src/publisher.cpp keeps the mapping well-formed, and writes into no
-- chunk that is in use.
use drive_bus.Prelude.{
  ℕ, ◌+◌, ◌≤◌, ◌<◌, ◌≡◌, ◌≢◌, ◌⊎◌, inl, inr, List, [], ◌∷◌, some, true, false, Bool-cases, ◌==◌,
  ==_iff, refl, sym, subst, length, arith, ℕ_discrete, ◌∙◌,
}
use drive_bus.Layout.{class_size_bytes, find_size_class, local_chunk_index}
use drive_bus.Shared.{SharedData}
use drive_bus.FreeList.{set_in_use, take_chunk}
use drive_bus.FreeList.Chain.{member, member-append}
use drive_bus.FreeList.Queue.{FreeList, FreeList-frame, take_chunk-FreeList}
use drive_bus.Publisher.Publish.{fill_chunk}
use drive_bus.Sound.{Sound, Untouched}
use drive_bus.Sound.Frame.{
  write_message-outside, load_word-same, FreeList-other, First, oldest_chunk, used-apart,
}

-- A message of class `c` that fits its chunk.
module _ (s : SharedData) (c size seq : ℕ) (payload : List ℕ) (hc : c < 5)
    (class : find_size_class size ≡ some c) (fit : length payload + 8 ≤ class_size_bytes c) where
  abbrev filled : SharedData
  filled = fill_chunk s c size seq payload

  fill_chunk-own : (f : ℕ) (fs : List ℕ) → FreeList s c (f ∷ fs) → FreeList filled c fs
  unfolding fill_chunk member
  fill_chunk-own f fs l =
      FreeList-frame taken filled c c f fs hc hc l.chunks.0
        (ground (arith, member-append f fs (s.tail c ∷ []))) refl refl (λ i. refl)
        (λ x h. load_word-same taken.pool filled.pool x (λ y lo hi. outside y (ground arith)))
        (subst (λ i. FreeList (take_chunk (set_in_use s c i true) c) c fs) (sym first.local)
          (take_chunk-FreeList s c first.number f fs hc l (sym l.links.0 ∙ first.place)))
    where
      first : First s c
      first = oldest_chunk s c f fs hc l

      taken : SharedData
      taken = take_chunk (set_in_use s c (local_chunk_index c (s.head c)) true) c

      outside : (y : ℕ) → (y < f) ⊎ (f + class_size_bytes c ≤ y) → filled.pool y ≡ taken.pool y
      outside y h =
          write_message-outside taken.pool (s.head c) seq payload y (ground (arith, l.links.0))

  -- A write behind the header and payload of the head chunk.
  outside_head :
      (y : ℕ) → (y < s.head c) ⊎ (s.head c + class_size_bytes c ≤ y) → filled.pool y ≡ s.pool y
  unfolding fill_chunk take_chunk set_in_use
  outside_head y h = write_message-outside s.pool (s.head c) seq payload y (ground arith)

  fill_chunk-other :
      (d : ℕ) (free : List ℕ)
      → d < 5
      → c ≢ d
      → First s c
      → FreeList s d free
      → FreeList filled d free
  unfolding fill_chunk take_chunk set_in_use
  fill_chunk-other d free hd ne first l =
      FreeList-other s filled d c (s.head c) free hd hc (λ e. ne (sym e))
        (first.number, first.few, first.place) (rw apart refl) refl (λ i. rw apart refl)
        outside_head l
    where
      apart : (c == d) ≡ false
      apart = ground (arith, ==_iff c d)

  -- The mapping with the chunk taken and filled and its descriptor written.
  pub fill_chunk-Sound :
      First s c → (f : ℕ) (fs : List ℕ) → FreeList s c (f ∷ fs) → Sound s → Sound filled
  unfolding fill_chunk take_chunk set_in_use
  fill_chunk-Sound first f fs l sound = record {
    lists = λ d hd. elim (ℕ_discrete c d) [
      | yes e ↦ (fs, subst (λ d. FreeList filled d fs) e (fill_chunk-own f fs l))
      | no ne ↦ let (free, l') = sound.lists d hd in (free, fill_chunk-other d free hd ne first l')
    ];
    ring = λ i hi. elim (Bool-cases (s.descriptor_write_index == i)) [
      | inl e ↦ rw e (c, hc, class, (first.number, first.few, first.place))
      | inr e ↦ rw e (sound.ring i hi)
    ];
    indices = record { write = sound.indices.write; reads = sound.indices.reads };
    counted = λ d i hd hi h. let used = sound.counted d i hd hi h in ground arith;
  }

  pub fill_chunk-Untouched : First s c → Untouched s filled
  fill_chunk-Untouched first d i x hd hi used lo hi' = outside_head x (
      ground
        (arith, used-apart s d i c first.number hd hc hi first.few used first.free, first.place))

  -- The chunk that is filled is in use.
  pub fill_chunk-used : (first : First s c) → filled.is_in_use c first.number ≡ true
  unfolding fill_chunk take_chunk set_in_use
  fill_chunk-used first = ground (arith, first.local)
