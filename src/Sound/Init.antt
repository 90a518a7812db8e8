-- ===== src/Sound/Init.antt =====
-- The mapping that a new publisher makes, `initialize_shared_data` of src/publisher.cpp, is well-formed,
-- and stays so when a subscriber is tracked.
use drive_bus.Prelude.{
  ℕ, zero, suc, ◌<◌, ◌≡◌, inl, inr, true, false, Bool-cases, Option-cases, leb, ◌==◌, ==_iff, refl,
  arith, update, ℕ_discrete,
}
use drive_bus.Layout.{max_subscribers, invalid_index, total_chunk_count, chunk_count_by_size_class}
use drive_bus.Layout.Chunks.{chunk_number, chunk_offset-Placed}
use drive_bus.Shared.{SharedData, fill, initialize_shared_data, initialize_chunk_usage_tracker}
use drive_bus.FreeList.Init.{initialize-FreeList, initial_run}
use drive_bus.Publisher.{Publisher, SubscriberRegistration, find_slot}
use drive_bus.Publisher.Tracking.{track_subscriber}
use drive_bus.Sound.{Sound, Described}
use drive_bus.Sound.Frame.{FreeList-same}

fill-at : (n v : ℕ) (f : ℕ → ℕ) (i : ℕ) → i < n → fill n v f i ≡ v
unfolding fill
fill-at zero v f i h = absurd (omega arith)
fill-at (suc n) v f i h = elim (ℕ_discrete n i) [
  | yes e ↦ let g : (n == i) ≡ true = ground (arith, ==_iff n i) in rw g refl
  | no ne ↦
      let g : (n == i) ≡ false = ground (arith, ==_iff n i) in rw g (fill-at n v f i (omega arith))
]

-- The mapping of a new publisher, made in memory whose descriptors name chunks, as those of memory that
-- is zero do, is well-formed: every class has its free list with all its chunks, no slot is in use and
-- no chunk is referenced.
pub initialize-Sound :
    (s : SharedData)
    → ((i : ℕ) → i < 16 → Described (s.desc_ring i))
    → Sound (initialize_chunk_usage_tracker (initialize_shared_data s))
unfolding initialize_shared_data initialize_chunk_usage_tracker
initialize-Sound s ring = record {
  lists = λ c hc. (initial_run c, initialize-FreeList s c hc);
  ring = ring;
  indices = record {
    write = omega arith;
    reads = λ k hk. inl (fill-at max_subscribers invalid_index s.descriptor_read_indices k hk);
  };
  counted = λ c i hc hi h. absurd (
      h (
        fill-at total_chunk_count 0 s.chunk_reference_counts (chunk_number c i) (below c i hc hi)));
}
  where
    below :
        (c i : ℕ) → c < 5 → i < chunk_count_by_size_class c → chunk_number c i < total_chunk_count
    below c i hc hi =
        omega (arith, (chunk_offset-Placed c i hc hi).index, (chunk_offset-Placed c i hc hi).below)

-- A slot is given to a subscriber.
pub track-Sound :
    (s : SharedData) (slot : ℕ)
    → Sound s
    → Sound (record s {
      descriptor_read_indices = update s.descriptor_read_indices slot s.descriptor_write_index;
    })
track-Sound s slot sound = record {
  lists = λ c hc.
      let (free, l) = sound.lists c hc in
      (free, FreeList-same s _ c free refl refl (λ j. refl) refl l);
  ring = sound.ring;
  indices = record {
    write = sound.indices.write;
    reads = λ k hk. elim (Bool-cases (slot == k)) [
      | inl e ↦ rw e (inr sound.indices.write)
      | inr e ↦ rw e (sound.indices.reads k hk)
    ];
  };
  counted = sound.counted;
}

-- Tracking a subscriber, also one that is refused, leaves the mapping well-formed.
pub track_subscriber-Sound :
    (p : Publisher) (r : SubscriberRegistration)
    → Sound p.shared_data
    → Sound (track_subscriber p r).0.shared_data
unfolding track_subscriber
track_subscriber-Sound p r sound = elim (Bool-cases (leb max_subscribers r.slot_index)) [
  | inl e ↦ rw e sound
  | inr e ↦
      elim (Bool-cases (p.shared_data.descriptor_read_indices r.slot_index == invalid_index)) [
        | inr f ↦ rw (e, f) sound
        | inl f ↦ elim (Option-cases (find_slot p.slot_by_event_fd r.data_available_event_fd)) [
          | inr (found, g) ↦ rw (e, f, g) sound
          | inl g ↦ rw (e, f, g) (track-Sound p.shared_data r.slot_index sound)
        ]
      ]
]
