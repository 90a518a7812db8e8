-- ===== src/Sound/Reap.antt =====
-- Dropping all the references of a dead subscriber: `release_chunk_references_in_descriptor_range` and
-- `reap_dead_subscribers` of src/publisher.cpp on a well-formed mapping.
use drive_bus.Prelude.{
  ℕ, zero, suc, ◌+◌, ◌-◌, ◌≤◌, ◌<◌, ◌≡◌, ◌≢◌, inl, inr, Option, none, some, true, false, Bool-cases,
  ◌∷◌, leb, ltb, ◌==◌, ==_iff, ==_refl, refl, arith, ◌∙◌, update,
}
use drive_bus.Layout.{class_size_bytes, chunk_count_by_size_class, invalid_index, max_subscribers}
use drive_bus.Layout.Chunks.{chunk_offset}
use drive_bus.Shared.{SharedData}
use drive_bus.References.{Dropped, held, freed, double_free, drop_reference}
use drive_bus.Publisher.{Publisher, RunError, chunk_reference_release_failed, find_slot, erase_fd}
use drive_bus.Publisher.Release.{release_range, release_unread, reap_dead_subscribers}
use drive_bus.Sound.{Sound}
use drive_bus.Sound.Frame.{FreeList-same}
use drive_bus.Sound.Drop.{Dropping, described-Dropping}

-- What dropping references keeps: the mapping is well-formed, no chunk is newly in use, the chunks
-- still in use have their bytes, and the ring and its indices are the same.
pub record Releasing (s t : SharedData) : Type 0 where
  pub sound : Sound t
  pub bytes :
      (c i x : ℕ)
      → c < 5
      → i < chunk_count_by_size_class c
      → t.is_in_use c i ≡ true
      → chunk_offset c i ≤ x
      → x < chunk_offset c i + class_size_bytes c
      → t.pool x ≡ s.pool x
  pub marks : (c i : ℕ) → t.is_in_use c i ≡ true → s.is_in_use c i ≡ true
  pub ring : t.desc_ring ≡ s.desc_ring
  pub reads : t.descriptor_read_indices ≡ s.descriptor_read_indices
  pub write : t.descriptor_write_index ≡ s.descriptor_write_index

Releasing-refl : (s : SharedData) → Sound s → Releasing s s
Releasing-refl s sound = record {
  sound = sound;
  bytes = λ c i x hc hi u lo hi'. refl;
  marks = λ c i u. u;
  ring = refl;
  reads = refl;
  write = refl;
}

Releasing-trans : (s t u : SharedData) → Releasing s t → Releasing t u → Releasing s u
Releasing-trans s t u a b = record {
  sound = b.sound;
  bytes = λ c i x hc hi used lo hi'.
      b.bytes c i x hc hi used lo hi' ∙ a.bytes c i x hc hi (b.marks c i used) lo hi';
  marks = λ c i used. a.marks c i (b.marks c i used);
  ring = b.ring ∙ a.ring;
  reads = b.reads ∙ a.reads;
  write = b.write ∙ a.write;
}

pub Dropping-Releasing : (s t : SharedData) (d : Dropped) → Dropping s t d → Releasing s t
Dropping-Releasing s t d k = record {
  sound = k.sound;
  bytes = λ c i x hc hi used lo hi'. k.untouched c i x hc hi (k.marks c i used) lo hi';
  marks = k.marks;
  ring = k.ring;
  reads = k.reads;
  write = k.write;
}

-- The release came to its end.
abbrev Released : SharedData → Option (SharedData × Option RunError) → Type 0
Released s r = (t : SharedData) × (r ≡ some (t, none)) × Releasing s t

-- After one reference is dropped, if the rest of the release comes to its end.
dropped-Released :
    (n start slot : ℕ) (s : SharedData) (r : SharedData × Dropped)
    → ((t : SharedData) → Sound t → Released t (release_range n t (start + 1) slot))
    → Dropping s r.0 r.1
    → Released s (elim r.1 [
      | double_free ↦ some (r.0, some chunk_reference_release_failed)
      | held ↦ release_range n r.0 (start + 1) slot
      | freed ↦ release_range n r.0 (start + 1) slot
    ])
dropped-Released n start slot s (t, double_free) rest k = absurd (k.found refl)
dropped-Released n start slot s (t, held) rest k =
    let (u, e, k') = rest t k.sound in
    (u, e, Releasing-trans s t u (Dropping-Releasing s t held k) k')
dropped-Released n start slot s (t, freed) rest k =
    let (u, e, k') = rest t k.sound in
    (u, e, Releasing-trans s t u (Dropping-Releasing s t freed k) k')

release_range-Released :
    (n : ℕ) (s : SharedData) (start slot : ℕ)
    → start + n ≤ 16
    → slot < 32
    → Sound s
    → Released s (release_range n s start slot)
unfolding release_range
release_range-Released zero s start slot h hs sound = (s, refl, Releasing-refl s sound)
release_range-Released (suc n) s start slot h hs sound =
    let (c, hc, class, chunk) = sound.ring start (omega arith) in
    rw (class, release_range)
      (dropped-Released n start slot s (drop_reference s c (s.desc_ring start).offset slot)
        (λ t. release_range-Released n t (start + 1) slot (omega arith) hs)
        (described-Dropping s c (s.desc_ring start).offset slot hc chunk hs sound))

-- All the unread descriptors of a slot.
release_unread-Released :
    (s : SharedData) (rd slot : ℕ)
    → rd < 16
    → slot < 32
    → Sound s
    → Released s (release_unread s rd s.descriptor_write_index slot)
unfolding release_unread
release_unread-Released s rd slot hr hs sound = elim (Bool-cases (ltb wr rd)) [
  | inl b ↦
      let (t, e, k) = release_range-Released (16 - rd) s rd slot (omega arith) hs sound in
      let (u, f, k') =
        release_range-Released wr t 0 slot (omega (arith, sound.indices.write)) hs k.sound in
      rw (b, e) (u, f, Releasing-trans s t u k k')
  | inr b ↦
      rw b
        (release_range-Released (wr - rd) s rd slot (ground (arith, sound.indices.write)) hs sound)
]
  where
    wr : ℕ
    wr = s.descriptor_write_index

-- The slot is given up.
give_up-Sound :
    (s : SharedData) (slot : ℕ)
    → Sound s
    → Sound
        (record s { descriptor_read_indices = update s.descriptor_read_indices slot invalid_index })
give_up-Sound s slot sound = record {
  lists = λ c hc.
      let (free, l) = sound.lists c hc in
      (free, FreeList-same s _ c free refl refl (λ j. refl) refl l);
  ring = sound.ring;
  indices = record {
    write = sound.indices.write;
    reads = λ k hk. elim (Bool-cases (slot == k)) [
      | inl e ↦ rw e (inl refl)
      | inr e ↦ rw e (sound.indices.reads k hk)
    ];
  };
  counted = sound.counted;
}

-- On a well-formed mapping, where the slot of a dead subscriber is in use and the tables of the publisher
-- agree on it, reaping it comes to its end without an error: no length without a size class, no double
-- free. The mapping is well-formed again, the slot is not in use, and its descriptor is closed and no
-- longer among those to signal.
pub reap_dead_subscribers-Sound :
    (p : Publisher) (slot : ℕ)
    → Sound p.shared_data
    → slot < 16
    → p.shared_data.descriptor_read_indices slot ≢ invalid_index
    → find_slot p.slot_by_event_fd (p.event_fd_by_slot slot) ≡ some slot
    → (q : Publisher) × (reap_dead_subscribers p slot ≡ some (q, none))
      × Sound q.shared_data
      × (q.shared_data.descriptor_read_indices slot ≡ invalid_index)
      × (q.data_available_event_fds ≡ erase_fd p.data_available_event_fds (p.event_fd_by_slot slot))
      × (q.closed ≡ p.event_fd_by_slot slot ∷ p.closed)
unfolding reap_dead_subscribers
reap_dead_subscribers-Sound p slot sound hs used known =
    let (t, e, k) =
      release_unread-Released p.shared_data (p.shared_data.descriptor_read_indices slot) slot
        (ground (arith, sound.indices.reads slot hs)) (omega arith) sound in
    let low : leb max_subscribers slot ≡ false = ground arith in
    let taken : (p.shared_data.descriptor_read_indices slot == invalid_index) ≡ false =
      ground (arith, ==_iff (p.shared_data.descriptor_read_indices slot) invalid_index) in
    rw (low, taken, e, known, ==_refl slot)
      (_, refl, give_up-Sound t slot k.sound, rw (==_refl slot) refl, refl, refl)
