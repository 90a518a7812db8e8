-- ===== src/Delivery/Attempt.antt =====
-- `Publisher::try_publish_one` of src/publisher.cpp has two ends where nothing outside fails: it is
-- blocked and changes nothing, or it publishes.
use drive_bus.Prelude.{
  ℕ, ◌+◌, ◌-◌, ◌%◌, ◌≤◌, ◌<◌, ◌≡◌, ◌⊎◌, inl, inr, List, ◌∷◌, Option, none, some, Bool, true, false,
  Bool-cases, ltb, ◌||◌, refl, length, arith,
}
use drive_bus.Layout.{
  word_mod, class_size_bytes, find_size_class, local_chunk_index, first_offset, last_offset,
  chunk_index_of,
}
use drive_bus.Layout.Chunks.{chunk_offset-Placed, chunk_number}
use drive_bus.Layout.Classes.{Fits, find_size_class-Fits}
use drive_bus.Shared.{SharedData}
use drive_bus.FreeList.{no_free_chunk}
use drive_bus.FreeList.Queue.{FreeList}
use drive_bus.Ring.{is_blocked, find_slowest_read_index}
use drive_bus.Publisher.{Publisher, PublishAttempt, RunError}
use drive_bus.Publisher.Publish.{
  PublishOutcome, attempt, failed, fill_chunk, publish_descriptor, finish_publish, publish_in_class,
  publish_sized, try_publish_one, reference_mask, signal_all,
}
use drive_bus.Sound.{Sound}
use drive_bus.Sound.Frame.{First, oldest_chunk}
use drive_bus.Sound.Attempt.{some_chunk}

-- The mapping once a message is published in the chunk `i` of class `c`.
abbrev pub published_in : SharedData → ℕ → ℕ → ℕ → ℕ → List ℕ → ℕ → SharedData
published_in s c i mask size payload seq =
    publish_descriptor (fill_chunk s c size seq payload) (chunk_number c i) mask

-- The result of an attempt is that the message is published.
pub record Published (p : Publisher) (payload : List ℕ) (mask : ℕ) (r : Publisher × PublishOutcome)
    : Type 0 where
  pub size_class : ℕ
  pub size : ℕ
  pub free : List ℕ
  pub first : ℕ
  pub small : size_class < 5
  pub class : find_size_class size ≡ some size_class
  pub fit : length payload + 8 ≤ class_size_bytes size_class
  pub whole : size ≡ length payload + 8
  pub list : FreeList p.shared_data size_class (first ∷ free)
  pub chunk : First p.shared_data size_class
  pub room :
      is_blocked (find_slowest_read_index p.shared_data) p.shared_data.descriptor_write_index
      ≡ false
  pub result : r ≡ (
    record p {
      seq = (p.seq + 1) % word_mod;
      shared_data = published_in p.shared_data size_class chunk.number mask size payload p.seq;
    },
    attempt PublishAttempt.succeeded,
  )

-- Blocked, with nothing changed, or published.
abbrev pub EitherEnd : Publisher → List ℕ → ℕ → Publisher × PublishOutcome → Type 0
EitherEnd p payload mask r = (r ≡ (p, attempt PublishAttempt.blocked)) ⊎ Published p payload mask r

module _ (signal : ℕ → Bool) (p : Publisher) (payload : List ℕ) (mask size : ℕ)
    (answered : signal_all signal p.data_available_event_fds ≡ true)
    (slots : reference_mask p.data_available_event_fds p.slot_by_event_fd 0 ≡ some mask)
    (sound : Sound p.shared_data) (whole : size ≡ length payload + 8) where
  in_class-EitherEnd :
      (c : ℕ)
      → c < 5
      → find_size_class size ≡ some c
      → size ≤ class_size_bytes c
      → is_blocked (find_slowest_read_index p.shared_data) p.shared_data.descriptor_write_index
        ≡ false
      → EitherEnd p payload mask (publish_in_class signal p payload size c)
  unfolding publish_in_class finish_publish
  in_class-EitherEnd c hc class fit room = elim (Bool-cases (no_free_chunk p.shared_data c)) [
    | inl n ↦ rw n (inl refl)
    | inr n ↦
        let (f, fs, l) = some_chunk p.shared_data c sound hc n in
        let first = oldest_chunk p.shared_data c f fs hc l in
        inr (record {
          size_class = c;
          size = size;
          free = fs;
          first = f;
          small = hc;
          class = class;
          fit = omega arith;
          whole = whole;
          list = l;
          chunk = first;
          room = room;
          result = rw (n, in_range first, not_used first, slots, answered, index first) refl;
        })
  ]
    where
      head_off : ℕ
      head_off = p.shared_data.head c

      in_range :
          First p.shared_data c
          → (ltb head_off (first_offset c) || ltb (last_offset c) head_off) ≡ false
      in_range first =
          let placed = chunk_offset-Placed c first.number hc first.few in
          ground (arith, placed.first, placed.last, first.place)

      not_used :
          First p.shared_data c → p.shared_data.is_in_use c (local_chunk_index c head_off) ≡ false
      not_used first = rw first.local first.free

      index :
          (first : First p.shared_data c) → chunk_index_of c head_off ≡ chunk_number c first.number
      index first = rw first.place (chunk_offset-Placed c first.number hc first.few).index

  sized-EitherEnd :
      (class : Option ℕ)
      → size ≤ 1024
      → find_size_class size ≡ class
      → Fits size class
      → EitherEnd p payload mask (publish_sized signal p payload size class)
  unfolding publish_sized
  sized-EitherEnd none h e fits = absurd (omega arith)
  sized-EitherEnd (some c) h e fits = elim (Bool-cases blocked) [
    | inl b ↦ rw b (inl refl)
    | inr b ↦ rw b (in_class-EitherEnd c fits.0 e fits.1 b)
  ]
    where
      blocked : Bool
      blocked =
          is_blocked (find_slowest_read_index p.shared_data) p.shared_data.descriptor_write_index

-- The two ends of an attempt with a payload that fits the largest chunk.
pub try_publish_one-EitherEnd :
    (signal : ℕ → Bool) (p : Publisher) (payload : List ℕ) (mask : ℕ)
    → Sound p.shared_data
    → length payload + 8 ≤ 1024
    → reference_mask p.data_available_event_fds p.slot_by_event_fd 0 ≡ some mask
    → signal_all signal p.data_available_event_fds ≡ true
    → EitherEnd p payload mask (try_publish_one signal p payload)
unfolding try_publish_one
try_publish_one-EitherEnd signal p payload mask sound few slots answered = rw short (
    sized-EitherEnd signal p payload mask size answered slots sound (omega arith)
      (find_size_class size) (omega arith) refl (find_size_class-Fits size))
  where
    size : ℕ
    size = (length payload + 8) % word_mod

    short : ltb (word_mod - 1 - 8) (length payload) ≡ false
    short = ground arith

-- On a well-formed mapping, with a payload that fits the largest chunk, with a slot for every
-- subscriber's descriptor and every signal answered, an attempt to publish never fails: the tests of the
-- head's offset and of the tracker's mark find nothing.
pub try_publish_one-answered :
    (signal : ℕ → Bool) (p : Publisher) (payload : List ℕ) (mask : ℕ) (e : RunError)
    → Sound p.shared_data
    → length payload + 8 ≤ 1024
    → reference_mask p.data_available_event_fds p.slot_by_event_fd 0 ≡ some mask
    → signal_all signal p.data_available_event_fds ≡ true
    → ¬ ((try_publish_one signal p payload).1 ≡ failed e)
try_publish_one-answered signal p payload mask e sound few slots answered =
    elim (try_publish_one-EitherEnd signal p payload mask sound few slots answered) [
      | inl b ↦ rw b (λ h. absurd (ground arith))
      | inr b ↦ rw b.result (λ h. absurd (ground arith))
    ]
