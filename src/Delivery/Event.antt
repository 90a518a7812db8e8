-- ===== src/Delivery/Event.antt =====
-- The loop of `consume_contiguous_messages` of src/subscriber.cpp, by itself, reads all that lies before
-- the write index.
use mathlib.Core.List.{map-append}
use drive_bus.Prelude.{
  ℕ, suc, ◌+◌, ◌-◌, ◌≤◌, ◌<◌, ◌≡◌, List, [], ◌++◌, Option, none, some, true, false, ltb, refl, sym,
  subst, length, length-append, append-nil, dec_lt, arith, map, ◌∙◌, ap,
}
use drive_bus.Layout.{MessageDescriptor}
use drive_bus.Shared.{SharedData}
use drive_bus.Subscriber.{PublisherAttachment, Reading, read_data, slice}
use drive_bus.Subscriber.Progress.{steps}
use drive_bus.Subscriber.Events.{Surroundings, and_then, consume_contiguous_messages}
use drive_bus.Sound.{Sound}
use drive_bus.Sound.Read.{InRange}
use drive_bus.Delivery.{message_at, AllReady}
use drive_bus.Delivery.Frame.{Keeping-trans}
use drive_bus.Delivery.Append.{seq_after}
use drive_bus.Delivery.Read.{Expecting}
use drive_bus.Delivery.Rounds.{seq_after-add, steps-add, steps-mod, length-slice}
use drive_bus.Delivery.Reading.{Given, read_data-Given}

-- Nothing else happens: every event write is answered, and no other process changes the mapping.
pub record Quiet (env : Surroundings) : Type 0 where
  pub drained : env.drained ≡ true
  pub answered : (round i : ℕ) → env.signal round i ≡ true
  pub alone : (round : ℕ) (s : SharedData) → env.others round s ≡ s

-- Two readings one after the other.
pub Given-append :
    (s : SharedData) (slot index seq : ℕ) (ds ds' : List MessageDescriptor) (r r' : Reading)
    → Given s slot index seq ds ds' r
    → Given r.shared slot r.attachment.subscriber_read_index (seq_after (length ds) seq) ds' [] r'
    → Given s slot index seq (ds ++ ds') [] (record r' { taken = r.taken ++ r'.taken })
Given-append s slot index seq ds ds' r r' g g' = record {
  error = g'.error;
  delivered =
      ap (λ (l : List (List ℕ)). r.taken ++ l) (g'.delivered ∙ g.messages)
      ∙ (ap (λ (l : List (List ℕ)). l ++ map (message_at s.pool) ds') g.delivered
          ∙ sym (map-append (message_at s.pool) ds ds'));
  waiting = tt;
  messages = refl;
  expecting = rw numbers g'.expecting;
  sound = g'.sound;
  range = record { slot = g'.range.slot; index = g'.range.index };
  slot_same = g'.slot_same;
  moved =
      g'.moved
      ∙ (ap (λ (i : ℕ). steps (length ds') i) g.moved
          ∙ (sym (steps-add (length ds) (length ds') index)
              ∙ ap (λ (n : ℕ). steps n index) (sym (length-append ds ds'))));
  stored = g'.stored;
  ring = g'.ring ∙ g.ring;
  write = g'.write ∙ g.write;
  others = λ k q ne. Keeping-trans s r.shared r'.shared k q (g.others k q ne) (g'.others k q ne);
  other_reads = λ k ne. g'.other_reads k ne ∙ g.other_reads k ne;
}
  where
    numbers :
        seq_after (length (ds ++ ds')) seq ≡ seq_after (length ds') (seq_after (length ds) seq)
    numbers = rw (length-append ds ds') (seq_after-add (length ds) (length ds') seq)

-- An error-free reading is followed by the rest of the work.
pub and_then-none :
    (r q : Reading) (next : PublisherAttachment → SharedData → Option Reading)
    → r.error ≡ none
    → next r.attachment r.shared ≡ some q
    → and_then r next ≡ some (record q { taken = r.taken ++ q.taken })
unfolding and_then
and_then-none r q next e f =
    subst
      (λ x. and_then (record r { error = x }) next ≡ some (record q { taken = r.taken ++ q.taken }))
      (sym e) (rw (f, and_then) refl)

-- The descriptors before the write index.
abbrev pub ahead : SharedData → ℕ → List MessageDescriptor
ahead s rd = slice s.desc_ring rd (s.descriptor_write_index - rd)

-- The loop stops at the write index.
consume-done :
    (env : Surroundings) (fuel round : ℕ) (a : PublisherAttachment) (s : SharedData)
    → Quiet env
    → s.descriptor_write_index ≤ a.subscriber_read_index
    → consume_contiguous_messages env (suc fuel) round a s
      ≡ some (record { attachment = a; shared = s; taken = []; error = none })
unfolding consume_contiguous_messages
consume-done env fuel round a s quiet h =
    let e : ltb a.subscriber_read_index s.descriptor_write_index ≡ false = ground arith in
    rw (quiet.alone round s, e) refl

-- Before it the loop reads, and goes on.
consume-more :
    (env : Surroundings) (fuel round : ℕ) (a : PublisherAttachment) (s : SharedData)
    → Quiet env
    → a.subscriber_read_index < s.descriptor_write_index
    → consume_contiguous_messages env (suc fuel) round a s
      ≡ and_then
          (read_data
            (env.signal round)
            0
            (slice s.desc_ring a.subscriber_read_index
              (s.descriptor_write_index - a.subscriber_read_index))
            a
            s)
          (consume_contiguous_messages env fuel (round + 1))
unfolding consume_contiguous_messages
consume-more env fuel round a s quiet h =
    let e : ltb a.subscriber_read_index s.descriptor_write_index ≡ true = ground arith in
    rw (quiet.alone round s, e) refl

-- Nothing is left before the write index.
nothing_left :
    (a : PublisherAttachment) (s : SharedData) (slot seq : ℕ)
    → Sound s
    → InRange a
    → a.slot_index ≡ slot
    → s.descriptor_read_indices slot ≡ a.subscriber_read_index
    → Expecting a seq
    → Given s slot a.subscriber_read_index seq [] []
        (record { attachment = a; shared = s; taken = []; error = none })
nothing_left a s slot seq sound range at_slot stored expecting = record {
  error = refl;
  delivered = refl;
  waiting = tt;
  messages = refl;
  expecting = expecting;
  sound = sound;
  range = range;
  slot_same = at_slot;
  moved = refl;
  stored = stored;
  ring = refl;
  write = refl;
  others = λ k q ne. record { bits = λ c i hc hi e h. h; bytes = λ c i x hc hi e h lo hi'. refl };
  other_reads = λ k ne. refl;
}

-- The loop without interference ends by its second round, with all that lies before the write index.
pub consume-Given :
    (env : Surroundings) (fuel round : ℕ) (a : PublisherAttachment) (s : SharedData) (slot seq : ℕ)
    → Quiet env
    → Sound s
    → InRange a
    → a.slot_index ≡ slot
    → s.descriptor_read_indices slot ≡ a.subscriber_read_index
    → Expecting a seq
    → a.subscriber_read_index ≤ s.descriptor_write_index
    → AllReady s slot seq (ahead s a.subscriber_read_index)
    → (r : Reading) × (consume_contiguous_messages env (suc (suc fuel)) round a s ≡ some r)
      × Given s slot a.subscriber_read_index seq (ahead s a.subscriber_read_index) [] r
unfolding slice
consume-Given env fuel round a s slot seq quiet sound range at_slot stored expecting le ready =
    elim (dec_lt a.subscriber_read_index s.descriptor_write_index) [
      | no done ↦
          let e : s.descriptor_write_index - a.subscriber_read_index ≡ 0 = omega arith in
          (
            _,
            consume-done env (suc fuel) round a s quiet (omega arith),
            rw e (nothing_left a s slot seq sound range at_slot stored expecting),
          )
      | yes more ↦ (
        _,
        consume-more env (suc fuel) round a s quiet more
            ∙ and_then-none r _ (consume_contiguous_messages env (suc fuel) (round + 1)) g.error
                (consume-done env fuel (round + 1) r.attachment r.shared quiet at_end),
        subst
            (λ l.
              Given s slot a.subscriber_read_index seq l []
                (record r { taken = r.taken ++ []; error = none }))
            (append-nil ds)
            (Given-append s slot a.subscriber_read_index seq ds [] r _ g (
              nothing_left r.attachment r.shared slot (seq_after (length ds) seq) g.sound g.range
                g.slot_same g.stored g.expecting)),
      )
    ]
  where
    ds : List MessageDescriptor
    ds = ahead s a.subscriber_read_index

    r : Reading
    r = read_data (env.signal round) 0 ds a s

    g : Given s slot a.subscriber_read_index seq ds [] r
    g =
        read_data-Given (env.signal round) 0 a s slot seq ds [] (quiet.answered round) sound range
          at_slot stored expecting (rw (append-nil ds) ready)

    at_end : r.shared.descriptor_write_index ≤ r.attachment.subscriber_read_index
    at_end =
        rw
          (
            g.write,
            g.moved,
            length-slice s.desc_ring a.subscriber_read_index
                (s.descriptor_write_index - a.subscriber_read_index),
            steps-mod (s.descriptor_write_index - a.subscriber_read_index) a.subscriber_read_index
                range.index,
          )
          (omega (arith, sound.indices.write))
