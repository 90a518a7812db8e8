-- ===== src/Subscriber/Rounds.antt =====
-- How many rounds the loop of `consume_contiguous_messages` of src/subscriber.cpp makes.
mod Write
use drive_bus.Prelude.{
  ℕ, zero, suc, ◌+◌, ◌-◌, ◌≤◌, ◌<◌, ◌≡◌, inl, inr, refl, sym, List, [], ◌∷◌, ◌++◌, Option, none,
  some, Bool, Bool-cases, true, false, not, leb, ltb, ◌||◌, ◌==◌, if◌then◌else◌, length, ap, ◌∙◌,
  subst, arith,
}
use drive_bus.Layout.{
  MessageDescriptor, descriptor_slot_count, find_size_class, first_offset, last_offset, magic,
}
use drive_bus.Bytes.{load_word, load_bytes}
use drive_bus.Shared.{SharedData}
use drive_bus.FreeList.{set_in_use, append_chunk}
use drive_bus.Mask.{slot_bit}
use drive_bus.Layout.{local_chunk_index, chunk_index_of}
use drive_bus.References.{Dropped, held, freed, double_free, drop_reference}
use drive_bus.Subscriber.{
  RunError, contiguous_message_consumption_failed, PublisherAttachment, Reading, advance,
  store_read_index, after_drop, deliver, read_checked, expect_seq, read_sized, read_data, slice,
}
use drive_bus.Subscriber.Progress.{steps, Progress, read_data-Progress}
use drive_bus.Subscriber.Events.{
  Surroundings, EventResult, failed, reading, and_then, consume_contiguous_messages,
  initialize_subscriber_read_index, as_wrapped, read_available, handle_data_available_event,
}
use drive_bus.Delivery.Rounds.{steps-mod, length-slice}
use drive_bus.Subscriber.Rounds.Write.{At, read_data-At}

-- Without an error the index has come to the end of the run that was read.
read_data-end :
    (signal : ℕ → Bool) (a : PublisherAttachment) (s : SharedData) (n : ℕ)
    → a.subscriber_read_index < 16
    → (read_data signal 0 (slice s.desc_ring a.subscriber_read_index n) a s).error ≡ none
    → (read_data signal 0
        (slice s.desc_ring a.subscriber_read_index n)
        a
        s).attachment.subscriber_read_index
      ≡ steps n a.subscriber_read_index
read_data-end signal a s n low ok =
    let p = read_data-Progress signal 0 (slice s.desc_ring a.subscriber_read_index n) a s in
    elim p.ended [
      | inl e ↦
          p.index
          ∙ ap (λ m. steps m a.subscriber_read_index)
              (e.0 ∙ length-slice s.desc_ring a.subscriber_read_index n)
      | inr e ↦ absurd (ground arith)
    ]

-- Other processes keep the write index in the ring, and leave it from round `m` on.
pub record Calms (m : ℕ) (env : Surroundings) : Type 0 where
  pub in_ring :
      (round : ℕ) (s : SharedData)
      → s.descriptor_write_index < descriptor_slot_count
      → (env.others round s).descriptor_write_index < descriptor_slot_count
  pub calm :
      (round : ℕ) (s : SharedData)
      → m ≤ round
      → (env.others round s).descriptor_write_index ≡ s.descriptor_write_index

-- The fuel is enough, and the write index is still in the ring.
abbrev Done : Option Reading → Type 0
Done o = (r : Reading) × (o ≡ some r) × (r.shared.descriptor_write_index < descriptor_slot_count)

and_then-Done :
    (r : Reading) (next : PublisherAttachment → SharedData → Option Reading)
    → r.shared.descriptor_write_index < descriptor_slot_count
    → (r.error ≡ none → Done (next r.attachment r.shared))
    → Done (and_then r next)
unfolding and_then
and_then-Done r next low h = by_error r.error refl
  where
    by_error : (e : Option RunError) → r.error ≡ e → Done (and_then r next)
    by_error (some e) eq = (r, simp (and_then, eq) refl, low)
    by_error none eq =
        let (q, done, low') = h eq in
        (record q { taken = r.taken ++ q.taken }, rw (and_then, eq, done) refl, low')

-- The write index is still in the ring when the handler has answered.
abbrev pub Answers : EventResult → Type 0
Answers (failed e) = Unit {0}
Answers (reading r) = r.shared.descriptor_write_index < descriptor_slot_count

module _ (m : ℕ) (env : Surroundings) (quiet : Calms m env) where
  caught_up-Done :
      (fuel round : ℕ) (a : PublisherAttachment) (s : SharedData)
      → 1 ≤ fuel
      → m ≤ round
      → s.descriptor_write_index < descriptor_slot_count
      → a.subscriber_read_index ≡ s.descriptor_write_index
      → Done (consume_contiguous_messages env fuel round a s)
  unfolding consume_contiguous_messages
  caught_up-Done zero round a s few late low e = absurd (omega arith)
  caught_up-Done (suc fuel) round a s few late low e =
      let same = quiet.calm round s late in
      let stop : ltb a.subscriber_read_index (env.others round s).descriptor_write_index ≡ false =
        ground arith in
      rw stop (_, refl, quiet.in_ring round s low)

  -- What a round has read to the write index, or left in the middle by an error.
  next_round-Done :
      (fuel round : ℕ) (a : PublisherAttachment) (now : SharedData) (r : Reading)
      → r
        ≡ read_data
            (env.signal round)
            0
            (slice now.desc_ring a.subscriber_read_index
              (now.descriptor_write_index - a.subscriber_read_index))
            a
            now
      → (m - round) + 1 ≤ fuel
      → now.descriptor_write_index < descriptor_slot_count
      → a.subscriber_read_index < now.descriptor_write_index
      → ((b : PublisherAttachment) (t : SharedData)
          → (m - (round + 1)) + 2 ≤ fuel
          → t.descriptor_write_index < descriptor_slot_count
          → Done (consume_contiguous_messages env fuel (round + 1) b t))
      → Done (and_then r (consume_contiguous_messages env fuel (round + 1)))
  next_round-Done fuel round a now r is few low behind ih = and_then-Done r _ low' (λ ok.
      elim (Bool-cases (leb m (round + 1))) [
        | inr e ↦ ih r.attachment r.shared (ground arith) low'
        | inl e ↦
            let i : r.attachment.subscriber_read_index ≡ steps n a.subscriber_read_index =
              subst
                (λ x.
                  x.error ≡ none
                  → x.attachment.subscriber_read_index ≡ steps n a.subscriber_read_index)
                (sym is) (read_data-end (env.signal round) a now n (omega arith)) ok in
            let j = steps-mod n a.subscriber_read_index (omega arith) in
            caught_up-Done fuel (round + 1) r.attachment r.shared (omega arith) (ground arith) low'
              (omega (arith, write))
      ])
    where
      n : ℕ
      n = now.descriptor_write_index - a.subscriber_read_index

      write : r.shared.descriptor_write_index ≡ now.descriptor_write_index
      write =
          subst (λ x. x.shared.descriptor_write_index ≡ now.descriptor_write_index) (sym is)
            (read_data-At (env.signal round) 0 (slice now.desc_ring a.subscriber_read_index n) a
              now)

      low' : r.shared.descriptor_write_index < descriptor_slot_count
      low' = rw write low

  consume_contiguous_messages-Done :
      (fuel round : ℕ) (a : PublisherAttachment) (s : SharedData)
      → (m - round) + 2 ≤ fuel
      → s.descriptor_write_index < descriptor_slot_count
      → Done (consume_contiguous_messages env fuel round a s)
  unfolding consume_contiguous_messages
  consume_contiguous_messages-Done zero round a s few low = absurd (omega arith)
  consume_contiguous_messages-Done (suc fuel) round a s few low =
      let low' = quiet.in_ring round s low in
      elim (Bool-cases (ltb a.subscriber_read_index (env.others round s).descriptor_write_index)) [
        | inr e ↦ rw e (_, refl, low')
        | inl e ↦ rw e (
            next_round-Done fuel round a (env.others round s) _ refl (omega arith) low'
              (ground arith) (λ b t. consume_contiguous_messages-Done fuel (round + 1) b t))
      ]

  as_wrapped-write : (w : ℕ) (r : Reading) → At w r → At w (as_wrapped r)
  unfolding as_wrapped
  as_wrapped-write w r h = by_error r.error refl
    where
      by_error : (e : Option RunError) → r.error ≡ e → At w (as_wrapped r)
      by_error none eq = simp (as_wrapped, eq) h
      by_error (some e) eq = simp (as_wrapped, eq) h

  read_available-Done :
      (fuel : ℕ) (a : PublisherAttachment) (s : SharedData)
      → m + 2 ≤ fuel
      → s.descriptor_write_index < descriptor_slot_count
      → Done (read_available env fuel a s)
  unfolding read_available
  read_available-Done fuel a s few low =
      elim (Bool-cases (ltb s.descriptor_write_index a.subscriber_read_index)) [
        | inr e ↦ rw e (consume_contiguous_messages-Done fuel 1 a s (omega arith) low)
        | inl e ↦ rw e (
            and_then-Done r _ low' (λ ok.
              consume_contiguous_messages-Done fuel 1 r.attachment r.shared (omega arith) low'))
      ]
    where
      first : Reading
      first =
          read_data (env.signal 0) 0
            (slice s.desc_ring a.subscriber_read_index
              (descriptor_slot_count - a.subscriber_read_index))
            a s

      r : Reading
      r = as_wrapped first

      write : At s.descriptor_write_index r
      write = as_wrapped-write s.descriptor_write_index first (read_data-At (env.signal 0) 0 _ a s)

      low' : r.shared.descriptor_write_index < descriptor_slot_count
      low' = rw write low

-- When the write index is in the ring, other processes keep it there, and leave it from round `m` of
-- the loop on, `m + 2` units of fuel are enough: the handler of an event ends, with an error or a
-- reading, and the write index is still in the ring after a reading. Messages and descriptors are
-- arbitrary.
pub handle_data_available_event-Answers :
    (m : ℕ) (env : Surroundings) (fuel : ℕ) (attachment : Option PublisherAttachment)
    (s : SharedData)
    → Calms m env
    → m + 2 ≤ fuel
    → s.descriptor_write_index < descriptor_slot_count
    → (x : EventResult) × (handle_data_available_event env fuel attachment s ≡ some x) × Answers x
unfolding handle_data_available_event
handle_data_available_event-Answers m env fuel none s quiet few low = (_, refl, tt)
handle_data_available_event-Answers m env fuel (some a) s quiet few low =
    elim (Bool-cases env.drained) [
      | inr e ↦ rw e (_, refl, tt)
      | inl e ↦
          let (r, done, low') =
            read_available-Done m env quiet fuel
              (initialize_subscriber_read_index a (env.others 0 s)) (env.others 0 s) few
              (quiet.in_ring 0 s low) in
          simp (e, done) (reading r, refl, low')
    ]
