-- ===== src/Delivery/Publish.antt =====
-- `Publisher::try_publish_one` of src/publisher.cpp appends its message to what every tracked
-- subscriber has to read.
use mathlib.Core.Path.{ap₂}
use mathlib.Core.List.{map-append}
use drive_bus.Prelude.{
  ℕ, suc, ◌+◌, ◌^◌, ◌≤◌, ◌<◌, ◌≡◌, ◌⊎◌, inl, inr, List, [], ◌∷◌, ◌++◌, some, Bool, true, false,
  ◌==◌, ==_iff, ==_refl, refl, sym, subst, length, length-map, length-append, arith, map, ◌∙◌, ap,
  ℕ_discrete,
}
use drive_bus.Layout.{MessageDescriptor, class_size_bytes, find_size_class}
use drive_bus.Layout.Chunks.{chunk_number}
use drive_bus.Mask.{test_bit}
use drive_bus.Mask.Laws.{test_bit-zero}
use drive_bus.Bytes.{load_bytes}
use drive_bus.Shared.{SharedData}
use drive_bus.FreeList.{set_in_use, take_chunk}
use drive_bus.Ring.Slowest.{is_blocked_iff, pending_count}
use drive_bus.Ring.Pending.{pending, pending-write}
use drive_bus.Publisher.{Publisher, PublishAttempt}
use drive_bus.Publisher.Publish.{
  PublishOutcome, attempt, fill_chunk, publish_descriptor, try_publish_one, reference_mask,
  signal_all,
}
use drive_bus.Sound.{Sound}
use drive_bus.Sound.Frame.{First}
use drive_bus.Sound.Publish.{fill_chunk-Untouched}
use drive_bus.Delivery.{message_at, queue, Ready, AllReady, Waiting}
use drive_bus.Delivery.Frame.{Keeping, AllKeeping, every_chunk, AllReady-frame, messages-frame}
use drive_bus.Delivery.Drop.{referenced-used}
use drive_bus.Delivery.Attempt.{published_in, Published, try_publish_one-EitherEnd}
use drive_bus.Delivery.Append.{
  seq_after, seq_after-suc, written-begins, written-numbered, written-payload, AllReady-snoc,
  member-free,
}

-- A message published in a free chunk.
module _ (s : SharedData) (c size seq mask slot : ℕ) (payload : List ℕ) (hc : c < 5)
    (class : find_size_class size ≡ some c) (fit : length payload + 8 ≤ class_size_bytes c)
    (whole : size ≡ length payload + 8) (chunk : First s c) (sound : Sound s)
    (small_seq : seq < 2 ^ 32) (bit : test_bit mask slot ≡ true) (small_mask : mask < 2 ^ 32) where
  abbrev after : SharedData
  after = published_in s c chunk.number mask size payload seq

  unreferenced : s.chunk_reference_counts (chunk_number c chunk.number) ≡ 0
  unreferenced = elim (ℕ_discrete (s.chunk_reference_counts (chunk_number c chunk.number)) 0) [
    | yes e ↦ e
    | no ne ↦ absurd (cc (sound.counted c chunk.number hc chunk.few ne, chunk.free))
  ]

  after-Keeping : (q : ℕ) → Keeping s after slot q
  unfolding publish_descriptor fill_chunk take_chunk set_in_use
  after-Keeping q = record {
    bits = λ d j hd hj e h. elim (ℕ_discrete (chunk_number c chunk.number) (chunk_number d j)) [
      | yes f ↦
          absurd
            (let g = rw (sym f ∙ refl) at h in ground (arith, unreferenced, test_bit-zero slot, f))
      | no ne ↦
          let g : (chunk_number c chunk.number == chunk_number d j) ≡ false =
            ground (arith, ==_iff (chunk_number c chunk.number) (chunk_number d j)) in
          rw g h
    ];
    bytes = λ d j x hd hj e h lo hi.
        fill_chunk-Untouched s c size seq payload hc class fit chunk d j x hd hj
          (referenced-used s d j slot hd hj sound h) (omega arith) (omega arith);
  }

  abbrev new_descriptor : MessageDescriptor
  new_descriptor = record { offset = s.head c; len = size }

  new-Ready : Ready after slot seq new_descriptor
  unfolding publish_descriptor fill_chunk take_chunk set_in_use
  new-Ready = record {
    size_class = c;
    number = chunk.number;
    small = hc;
    few = chunk.few;
    class = class;
    place = chunk.place;
    header = omega arith;
    begins = written-begins s.pool (s.head c) seq payload;
    numbered = written-numbered s.pool (s.head c) seq payload small_seq;
    referenced = rw (==_refl (chunk_number c chunk.number), unreferenced) (ground arith);
  }

  new-message : message_at after.pool new_descriptor ≡ payload
  unfolding publish_descriptor fill_chunk take_chunk set_in_use
  new-message =
      subst (λ n. load_bytes after.pool (s.head c + 8) n ≡ payload) (omega arith)
        (written-payload s.pool (s.head c) seq payload)

  -- What there was to read.
  before : List MessageDescriptor
  before = pending s.desc_ring (s.descriptor_read_indices slot) s.descriptor_write_index

  module _ (first : ℕ) (waiting : Waiting s slot first)
      (active : s.descriptor_read_indices slot < 16)
      (room : pending_count (s.descriptor_read_indices slot) s.descriptor_write_index < 15) where
    pending-after :
        pending after.desc_ring (after.descriptor_read_indices slot) after.descriptor_write_index
        ≡ before ++ new_descriptor ∷ []
    unfolding publish_descriptor fill_chunk take_chunk set_in_use before
    pending-after =
        pending-write s.desc_ring new_descriptor (s.descriptor_read_indices slot)
          s.descriptor_write_index active sound.indices.write room

    before-Keeping : AllKeeping s after slot before
    before-Keeping = every_chunk s after slot before after-Keeping

    pub after-queue : queue after slot ≡ queue s slot ++ payload ∷ []
    unfolding before
    after-queue =
        ap (map (message_at after.pool)) pending-after
        ∙ (map-append (message_at after.pool) before (new_descriptor ∷ [])
            ∙ ap₂ ◌++◌ (messages-frame s after slot first before before-Keeping waiting)
                (ap (λ (m : List ℕ). m ∷ []) new-message))

    pub after-Waiting : seq_after (length (queue s slot)) first ≡ seq → Waiting after slot first
    unfolding before
    after-Waiting e = subst (AllReady after slot first) (sym pending-after) (
        AllReady-snoc after slot first seq new_descriptor before
          (AllReady-frame s after slot first before before-Keeping waiting)
          (rw chunk.place
            (member-free s slot first c chunk.number before hc chunk.few sound chunk.free waiting))
          (rw (length-map (message_at s.pool) before) at e) new-Ready)

-- What a subscriber is to be given: `queue` is what it has to read, its messages are ready and numbered
-- from `first` on, and the publisher's next number follows theirs.
pub record Served (p : Publisher) (slot first : ℕ) : Type 0 where
  pub active : p.shared_data.descriptor_read_indices slot < 16
  pub waiting : Waiting p.shared_data slot first
  pub next : seq_after (length (queue p.shared_data slot)) first ≡ p.seq

-- What publishing leaves.
module _ (p : Publisher) (payload : List ℕ) (mask slot first : ℕ) (r : Publisher × PublishOutcome)
    (b : Published p payload mask r) (sound : Sound p.shared_data) (small_mask : mask < 2 ^ 32)
    (bit : test_bit mask slot ≡ true) (hs : slot < 16) (small_seq : p.seq < 2 ^ 32)
    (served : Served p slot first) where
  has_room :
      pending_count
        (p.shared_data.descriptor_read_indices slot)
        p.shared_data.descriptor_write_index
      < 15
  has_room =
      ((is_blocked_iff p.shared_data sound.indices).0 b.room).1 slot hs
        (ground (arith, served.active))

  pub published-queue : queue r.0.shared_data slot ≡ queue p.shared_data slot ++ payload ∷ []
  published-queue = rw b.result (
      after-queue p.shared_data b.size_class b.size p.seq mask slot payload b.small b.class b.fit
        b.whole b.chunk sound small_seq bit small_mask first served.waiting served.active has_room)

  published-length : length (queue r.0.shared_data slot) ≡ suc (length (queue p.shared_data slot))
  published-length =
      ap length published-queue
      ∙ omega (arith, length-append (queue p.shared_data slot) (payload ∷ []))

  pub published-Served : Served r.0 slot first
  unfolding publish_descriptor fill_chunk take_chunk set_in_use
  published-Served = record {
    active = rw b.result served.active;
    waiting = rw b.result (
        after-Waiting p.shared_data b.size_class b.size p.seq mask slot payload b.small b.class
          b.fit b.whole b.chunk sound small_seq bit small_mask first served.waiting served.active
          has_room served.next);
    next =
        rw (published-length, seq_after-suc (length (queue p.shared_data slot)) first, served.next)
          (rw b.result refl);
  }

-- On a well-formed mapping, with every signal answered and the slot of every subscriber known, an attempt
-- to publish a payload that fits either is blocked and changes nothing, or succeeds: then the payload is
-- the last of what the tracked subscriber of the slot has to read, before it stands what stood before,
-- and the message numbers go on without a gap.
pub try_publish_one-queue :
    (signal : ℕ → Bool) (p : Publisher) (payload : List ℕ) (mask slot first : ℕ)
    → Sound p.shared_data
    → length payload + 8 ≤ 1024
    → reference_mask p.data_available_event_fds p.slot_by_event_fd 0 ≡ some mask
    → signal_all signal p.data_available_event_fds ≡ true
    → mask < 2 ^ 32
    → test_bit mask slot ≡ true
    → slot < 16
    → p.seq < 2 ^ 32
    → Served p slot first
    → (try_publish_one signal p payload ≡ (p, attempt PublishAttempt.blocked))
      ⊎ (((try_publish_one signal p payload).1 ≡ attempt PublishAttempt.succeeded)
          × (queue (try_publish_one signal p payload).0.shared_data slot
              ≡ queue p.shared_data slot ++ payload ∷ [])
          × Served (try_publish_one signal p payload).0 slot first)
try_publish_one-queue signal p payload mask slot first sound few slots answered small bit hs seq
      served =
    elim (try_publish_one-EitherEnd signal p payload mask sound few slots answered) [
      | inl b ↦ inl b
      | inr b ↦ inr (
        rw b.result refl,
        published-queue p payload mask slot first _ b sound small bit hs seq served,
        published-Served p payload mask slot first _ b sound small bit hs seq served,
      )
    ]
