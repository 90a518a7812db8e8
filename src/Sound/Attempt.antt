-- ===== src/Sound/Attempt.antt =====
-- `Publisher::try_publish_one` of src/publisher.cpp, branch by branch, on a well-formed mapping.
use drive_bus.Prelude.{
  ℕ, ◌+◌, ◌-◌, ◌≤◌, ◌<◌, ◌≡◌, inl, inr, List, [], ◌∷◌, Option, none, some, Bool, true, false,
  Bool-cases, ltb, ◌||◌, refl, subst, ℕ_discrete, length, arith,
}
use drive_bus.Layout.{
  word_mod, class_size_bytes, chunk_count_by_size_class, find_size_class, local_chunk_index,
  first_offset, last_offset, chunk_index_of,
}
use drive_bus.Layout.Chunks.{
  chunk_offset, chunk_offset-Placed, chunk_number, chunk_number-injective,
}
use drive_bus.Layout.Classes.{Fits, find_size_class-Fits}
use drive_bus.Shared.{SharedData}
use drive_bus.FreeList.{no_free_chunk}
use drive_bus.FreeList.Queue.{FreeList, no_free_chunk_iff}
use drive_bus.Ring.{is_blocked, find_slowest_read_index}
use drive_bus.Publisher.{Publisher}
use drive_bus.Publisher.Publish.{
  publish_descriptor, finish_publish, publish_in_class, publish_sized, try_publish_one,
}
use drive_bus.Sound.{Sound, Untouched}
use drive_bus.Sound.Frame.{FreeList-same, First, oldest_chunk}
use drive_bus.Sound.Publish.{fill_chunk-Sound, fill_chunk-Untouched, fill_chunk-used}

publish_descriptor-Sound :
    (s : SharedData) (c i mask : ℕ)
    → c < 5
    → i < chunk_count_by_size_class c
    → s.is_in_use c i ≡ true
    → Sound s
    → Sound (publish_descriptor s (chunk_number c i) mask)
unfolding publish_descriptor
publish_descriptor-Sound s c i mask hc hi used sound = record {
  lists = λ d hd.
      let (free, l) = sound.lists d hd in
      (free, FreeList-same s _ d free refl refl (λ j. refl) refl l);
  ring = sound.ring;
  indices = record { write = omega arith; reads = sound.indices.reads };
  counted = λ d j hd hj h. elim (ℕ_discrete (chunk_number c i) (chunk_number d j)) [
    | yes e ↦
        let (e1, e2) = chunk_number-injective i j c d hc hd hi hj e in
        subst (λ d. s.is_in_use d j ≡ true) e1 (subst (λ j. s.is_in_use c j ≡ true) e2 used)
    | no ne ↦ sound.counted d j hd hj (ground arith)
  ];
}

-- A step that keeps the mapping well-formed and writes into no chunk in use.
abbrev Kept : SharedData → SharedData → Type 0
Kept s t = Sound t × Untouched s t

same-Kept : (s : SharedData) → Sound s → Kept s s
same-Kept s sound = (sound, λ c i x hc hi u lo hi'. refl)

finish_publish-Kept :
    (signal : ℕ → Bool) (s : SharedData) (p : Publisher) (c i : ℕ) (mask : Option ℕ)
    → c < 5
    → i < chunk_count_by_size_class c
    → p.shared_data.is_in_use c i ≡ true
    → Kept s p.shared_data
    → Kept s (finish_publish signal p (chunk_number c i) mask).0.shared_data
unfolding finish_publish publish_descriptor
finish_publish-Kept signal s p c i none hc hi used k = k
finish_publish-Kept signal s p c i (some mask) hc hi used (sound, same) =
    (publish_descriptor-Sound p.shared_data c i mask hc hi used sound, same)

-- A class with a chunk to take has a first one.
pub some_chunk :
    (s : SharedData) (c : ℕ)
    → Sound s
    → c < 5
    → no_free_chunk s c ≡ false
    → (f : ℕ) × (fs : List ℕ) × FreeList s c (f ∷ fs)
some_chunk s c sound hc n = of_list (sound.lists c hc)
  where
    of_list : (free : List ℕ) × FreeList s c free → (f : ℕ) × (fs : List ℕ) × FreeList s c (f ∷ fs)
    of_list ([], l) = absurd (cc (n, (no_free_chunk_iff s c [] l).1 refl))
    of_list (f ∷ fs, l) = (f, fs, l)

module _ (signal : ℕ → Bool) (p : Publisher) (payload : List ℕ) (size c : ℕ) (hc : c < 5)
    (class : find_size_class size ≡ some c) (fit : length payload + 8 ≤ class_size_bytes c)
    (sound : Sound p.shared_data) where
  publish_in_class-Kept :
      Kept p.shared_data (publish_in_class signal p payload size c).0.shared_data
  unfolding publish_in_class
  publish_in_class-Kept = elim (Bool-cases (no_free_chunk p.shared_data c)) [
    | inl n ↦ rw n (same-Kept p.shared_data sound)
    | inr n ↦
        let (f, fs, l) = some_chunk p.shared_data c sound hc n in
        let first = oldest_chunk p.shared_data c f fs hc l in
        elim (Bool-cases (ltb head_off (first_offset c) || ltb (last_offset c) head_off)) [
          | inl o ↦ rw (n, o) (same-Kept p.shared_data sound)
          | inr o ↦ elim (Bool-cases (p.shared_data.is_in_use c (local_chunk_index c head_off))) [
            | inl u ↦ rw (n, o, u) (same-Kept p.shared_data sound)
            | inr u ↦
                rw (n, o, u)
                  (rw (index first) (
                    finish_publish-Kept signal p.shared_data _ c first.number _ hc first.few
                      (fill_chunk-used p.shared_data c size p.seq payload hc class fit first)
                      (
                        fill_chunk-Sound p.shared_data c size p.seq payload hc class fit first f fs
                            l sound,
                        fill_chunk-Untouched p.shared_data c size p.seq payload hc class fit first,
                      )))
          ]
        ]
  ]
    where
      head_off : ℕ
      head_off = p.shared_data.head c

      index :
          (first : First p.shared_data c) → chunk_index_of c head_off ≡ chunk_number c first.number
      index first = rw first.place (chunk_offset-Placed c first.number hc first.few).index

publish_sized-Kept :
    (signal : ℕ → Bool) (p : Publisher) (payload : List ℕ) (size : ℕ) (class : Option ℕ)
    → find_size_class size ≡ class
    → length payload + 8 ≡ size
    → Sound p.shared_data
    → Kept p.shared_data (publish_sized signal p payload size class).0.shared_data
unfolding publish_sized
publish_sized-Kept signal p payload size none e h sound = same-Kept p.shared_data sound
publish_sized-Kept signal p payload size (some c) e h sound = elim (Bool-cases blocked) [
  | inl b ↦ rw b (same-Kept p.shared_data sound)
  | inr b ↦
      let fits : Fits size (some c) = subst (Fits size) e (find_size_class-Fits size) in
      rw b (publish_in_class-Kept signal p payload size c fits.0 e (omega arith) sound)
]
  where
    blocked : Bool
    blocked =
        is_blocked (find_slowest_read_index p.shared_data) p.shared_data.descriptor_write_index

try_publish_one-Kept :
    (signal : ℕ → Bool) (p : Publisher) (payload : List ℕ)
    → Sound p.shared_data
    → Kept p.shared_data (try_publish_one signal p payload).0.shared_data
unfolding try_publish_one
try_publish_one-Kept signal p payload sound =
    elim (Bool-cases (ltb (word_mod - 1 - 8) (length payload))) [
      | inl b ↦ rw b (same-Kept p.shared_data sound)
      | inr b ↦ rw b (publish_sized-Kept signal p payload _ _ refl (ground arith) sound)
    ]

-- On a well-formed mapping every attempt to publish, whatever its outcome and whatever the signals
-- answer, leaves the mapping well-formed: every class has its free list, every descriptor of the ring
-- names a chunk of the class of its length, and the indices lie in the ring.
pub try_publish_one-Sound :
    (signal : ℕ → Bool) (p : Publisher) (payload : List ℕ)
    → Sound p.shared_data
    → Sound (try_publish_one signal p payload).0.shared_data
try_publish_one-Sound signal p payload sound = (try_publish_one-Kept signal p payload sound).0

-- On a well-formed mapping an attempt to publish, whatever its outcome, leaves every byte of every chunk
-- that was in use as it was: a message that a subscriber can still read is not overwritten.
pub try_publish_one-apart :
    (signal : ℕ → Bool) (p : Publisher) (payload : List ℕ) (c i x : ℕ)
    → Sound p.shared_data
    → c < 5
    → i < chunk_count_by_size_class c
    → p.shared_data.is_in_use c i ≡ true
    → chunk_offset c i ≤ x
    → x < chunk_offset c i + class_size_bytes c
    → (try_publish_one signal p payload).0.shared_data.pool x ≡ p.shared_data.pool x
try_publish_one-apart signal p payload c i x sound =
    (try_publish_one-Kept signal p payload sound).1 c i x
