-- ===== src/Subscriber/Progress.antt =====
-- How far `Subscriber::read_data` of src/subscriber.cpp comes.
use drive_bus.Prelude.{
  ℕ, zero, suc, ◌+◌, ◌-◌, ◌≤◌, ◌≡◌, ◌⊎◌, inl, inr, refl, List, [], ◌∷◌, Option, none, some, Bool,
  Bool-cases, true, false, not, ltb, ◌||◌, ◌==◌, if◌then◌else◌, length, ap, subst, arith,
}
use drive_bus.Layout.{MessageDescriptor, find_size_class, first_offset, last_offset, magic}
use drive_bus.Bytes.{load_word, load_bytes}
use drive_bus.Shared.{SharedData}
use drive_bus.References.{Dropped, held, freed, double_free, drop_reference}
use drive_bus.Subscriber.{
  contiguous_message_consumption_failed, PublisherAttachment, no_seq, Reading, read_batch,
  read_error, returned, callback_calls, stop_reading, step_index, advance, store_read_index,
  after_drop, deliver, read_checked, expect_seq, read_sized, read_data,
}

-- `n` moves of a read index round the ring.
abbrev pub steps : ℕ → ℕ → ℕ
steps zero i = i
steps (suc n) i = steps n (step_index i)

-- Of `n` messages, from the read index `i` on, those taken are as many as the index has moved; they
-- are all of them, or an error has ended the reading.
pub record Progress (i n : ℕ) (r : Reading) : Type 0 where
  pub index : r.attachment.subscriber_read_index ≡ steps (length r.taken) i
  pub few : length r.taken ≤ n
  pub ended :
      ((length r.taken ≡ n) × (r.error ≡ none))
      ⊎ (r.error ≡ some contiguous_message_consumption_failed)

stopped-Progress :
    (i n : ℕ) (a : PublisherAttachment) (s : SharedData)
    → a.subscriber_read_index ≡ i
    → Progress i n (stop_reading a s [])
stopped-Progress i n a s e = record { index = e; few = omega arith; ended = inr refl }

stopped_after-Progress :
    (i n : ℕ) (a : PublisherAttachment) (s : SharedData) (payload : List ℕ)
    → a.subscriber_read_index ≡ step_index i
    → Progress i (suc n) (stop_reading a s (payload ∷ []))
stopped_after-Progress i n a s payload e = record { index = e; few = omega arith; ended = inr refl }

deliver-Progress :
    (i n : ℕ) (payload : List ℕ) (r : Reading)
    → Progress (step_index i) n r
    → Progress i (suc n) (deliver payload r)
unfolding deliver
deliver-Progress i n payload r p = record {
  index = p.index;
  few = omega (arith, p.few);
  ended = elim p.ended [ inl e ↦ inl (ap suc e.0, e.1) | inr e ↦ inr e ];
}

-- What the rest of the loop does with `n` descriptors.
abbrev Rest : ℕ → (PublisherAttachment → SharedData → Reading) → Type 0
Rest n next =
    (a : PublisherAttachment) (s : SharedData) → Progress a.subscriber_read_index n (next a s)

after_drop-Progress :
    (signalled : Bool) (i n : ℕ) (a : PublisherAttachment) (payload : List ℕ)
    (r : SharedData × Dropped) (next : PublisherAttachment → SharedData → Reading)
    → a.subscriber_read_index ≡ step_index i
    → ((s : SharedData) → Progress i (suc n) (next a s))
    → Progress i (suc n) (after_drop signalled a payload r next)
unfolding after_drop
after_drop-Progress signalled i n a payload (s, held) next e h = h s
after_drop-Progress signalled i n a payload (s, double_free) next e h =
    stopped_after-Progress i n a s payload e
after_drop-Progress true i n a payload (s, freed) next e h = h s
after_drop-Progress false i n a payload (s, freed) next e h =
    stopped_after-Progress i n a s payload e

read_checked-Progress :
    (signalled : Bool) (n : ℕ) (a : PublisherAttachment) (s : SharedData) (size_class : ℕ)
    (d : MessageDescriptor) (next : PublisherAttachment → SharedData → Reading)
    → Rest n next
    → Progress a.subscriber_read_index (suc n) (read_checked signalled a s size_class d next)
unfolding read_checked advance
read_checked-Progress signalled n a s size_class d next h =
    after_drop-Progress signalled a.subscriber_read_index n (advance a) payload
      (
        store_read_index (drop_reference s size_class d.offset a.slot_index).0 a.slot_index
            (advance a).subscriber_read_index,
        (drop_reference s size_class d.offset a.slot_index).1,
      )
      (λ b t. deliver payload (next b t)) refl
      (λ t. deliver-Progress a.subscriber_read_index n payload _ (h (advance a) t))
  where
    payload : List ℕ
    payload = load_bytes s.pool (d.offset + 8) (d.len - 8)

expect_seq-index :
    (a : PublisherAttachment) (seq : ℕ)
    → (expect_seq a seq).subscriber_read_index ≡ a.subscriber_read_index
expect_seq-index a seq = elim (Bool-cases (a.expected_seq == no_seq)) [
  | inl e ↦ rw e refl
  | inr e ↦ rw e refl
]

-- Progress on both branches of a test.
either :
    {i n : ℕ} (b : Bool) {r r' : Reading}
    → Progress i n r
    → Progress i n r'
    → Progress i n (if b then r else r')
either true p q = p
either false p q = q

read_sized-Progress :
    (signalled : Bool) (n : ℕ) (a : PublisherAttachment) (s : SharedData) (class : Option ℕ)
    (d : MessageDescriptor) (next : PublisherAttachment → SharedData → Reading)
    → Rest n next
    → Progress a.subscriber_read_index (suc n) (read_sized signalled a s class d next)
unfolding read_sized
read_sized-Progress signalled n a s none d next h = stopped-Progress _ _ a s refl
read_sized-Progress signalled n a s (some c) d next h =
    either (ltb d.offset (first_offset c) || ltb (last_offset c) d.offset)
      (stopped-Progress _ n' a s refl)
      (either (ltb d.len 8) (stopped-Progress _ n' a s refl) (
        either (not (load_word s.pool d.offset == magic) || not (seq == a'.expected_seq))
          (stopped-Progress _ n' a' s (expect_seq-index a seq))
          (subst (λ i. Progress i n' (read_checked signalled a' s c d next))
            (expect_seq-index a seq) (read_checked-Progress signalled n a' s c d next h))))
  where
    n' : ℕ
    n' = suc n

    seq : ℕ
    seq = load_word s.pool (d.offset + 4)

    a' : PublisherAttachment
    a' = expect_seq a seq

pub read_data-Progress :
    (signal : ℕ → Bool) (n : ℕ) (ds : List MessageDescriptor) (a : PublisherAttachment)
    (s : SharedData)
    → Progress a.subscriber_read_index (length ds) (read_data signal n ds a s)
unfolding read_data
read_data-Progress signal n [] a s = record {
  index = refl;
  few = omega arith;
  ended = inl (refl, refl);
}
read_data-Progress signal n (d ∷ ds) a s =
    read_sized-Progress (signal n) (length ds) a s (find_size_class d.len) d _
      (read_data-Progress signal (n + 1) ds)

-- What a subscriber with a callback gets of `n` messages from the read index `i` on.
pub record CalledBack (i n : ℕ) (r : Reading) : Type 0 where
  pub index : r.attachment.subscriber_read_index ≡ steps (length (callback_calls false r)) i
  pub few : length (callback_calls false r) ≤ n
  pub ended :
      ((length (callback_calls false r) ≡ n) × (returned false r ≡ read_batch []))
      ⊎ (returned false r ≡ read_error contiguous_message_consumption_failed)

-- What a synchronous subscriber gets of them.
abbrev pub Batched : ℕ → ℕ → Reading → Type 0
Batched i n r =
    ((r.attachment.subscriber_read_index ≡ steps n i)
      × (ms : List (List ℕ)) × (returned true r ≡ read_batch ms)
      × (length ms ≡ n))
    ⊎ ((returned true r ≡ read_error contiguous_message_consumption_failed)
        × (m : ℕ) × (m ≤ n)
        × (r.attachment.subscriber_read_index ≡ steps m i))
