-- ===== src/Delivery/Available.antt =====
-- The run of the ring that one event of a subscriber reads, in one part or two:
-- `handle_data_available_event` of src/subscriber.cpp.

use drive_bus.Prelude.{
  ℕ, suc, ◌-◌, ◌<◌, ◌≡◌, List, [], ◌++◌, none, some, true, false, ltb, refl, sym, subst, length,
  dec_lt, arith, ◌∙◌, ap,
}
use drive_bus.Layout.{MessageDescriptor}
use drive_bus.Shared.{SharedData}
use drive_bus.Ring.Pending.{pending}
use drive_bus.Subscriber.{PublisherAttachment, Reading, read_data, slice}
use drive_bus.Subscriber.Events.{
  Surroundings, and_then, consume_contiguous_messages, as_wrapped, read_available,
}
use drive_bus.Sound.{Sound}
use drive_bus.Sound.Read.{InRange}
use drive_bus.Delivery.{AllReady}
use drive_bus.Delivery.Append.{seq_after}
use drive_bus.Delivery.Read.{Expecting}
use drive_bus.Delivery.Rounds.{steps-mod, length-slice, pending-plain, pending-wrapped}
use drive_bus.Delivery.Reading.{Given, read_data-Given}
use drive_bus.Delivery.Event.{Quiet, Given-append, and_then-none, ahead, consume-Given}

as_wrapped-none : (r : Reading) → r.error ≡ none → as_wrapped r ≡ r
unfolding as_wrapped
as_wrapped-none r e =
    subst (λ x. as_wrapped (record r { error = x }) ≡ record r { error = x }) (sym e) refl

-- All that the slot has to read.
abbrev pub waiting_run : SharedData → ℕ → List MessageDescriptor
waiting_run s rd = pending s.desc_ring rd s.descriptor_write_index

-- The write index has gone round the ring.
module _ (env : Surroundings) (fuel : ℕ) (a : PublisherAttachment) (s : SharedData) (slot seq : ℕ)
    (quiet : Quiet env) (sound : Sound s) (range : InRange a) (at_slot : a.slot_index ≡ slot)
    (stored : s.descriptor_read_indices slot ≡ a.subscriber_read_index)
    (expecting : Expecting a seq)
    (ready : AllReady s slot seq (waiting_run s a.subscriber_read_index))
    (round : s.descriptor_write_index < a.subscriber_read_index) where
  abbrev to_end : List MessageDescriptor
  to_end = slice s.desc_ring a.subscriber_read_index (16 - a.subscriber_read_index)

  abbrev from_start : List MessageDescriptor
  from_start = slice s.desc_ring 0 s.descriptor_write_index

  abbrev first_part : Reading
  first_part = read_data (env.signal 0) 0 to_end a s

  whole_run : waiting_run s a.subscriber_read_index ≡ to_end ++ from_start
  whole_run =
      pending-wrapped s.desc_ring a.subscriber_read_index s.descriptor_write_index round range.index

  first-Given : Given s slot a.subscriber_read_index seq to_end from_start first_part
  first-Given =
      read_data-Given (env.signal 0) 0 a s slot seq to_end from_start (quiet.answered 0) sound range
        at_slot stored expecting (rw whole_run at ready)

  at_start : first_part.attachment.subscriber_read_index ≡ 0
  at_start =
      rw
        (
          first-Given.moved,
          length-slice s.desc_ring a.subscriber_read_index (16 - a.subscriber_read_index),
          steps-mod (16 - a.subscriber_read_index) a.subscriber_read_index range.index,
        )
        (omega (arith, range.index))

  second_run : ahead first_part.shared first_part.attachment.subscriber_read_index ≡ from_start
  second_run =
      let e : s.descriptor_write_index - 0 ≡ s.descriptor_write_index = omega arith in
      rw (first-Given.ring, first-Given.write, at_start, e) refl

  wrapped-Given :
      (r : Reading) × (and_then
          (as_wrapped first_part)
          (consume_contiguous_messages env (suc (suc fuel)) 1)
        ≡ some r)
      × Given s slot a.subscriber_read_index seq (waiting_run s a.subscriber_read_index) [] r
  wrapped-Given =
      let (q, done, g) =
        consume-Given env fuel 1 first_part.attachment first_part.shared slot
          (seq_after (length to_end) seq) quiet first-Given.sound first-Given.range
          first-Given.slot_same first-Given.stored first-Given.expecting (omega (arith, at_start))
          (rw second_run first-Given.waiting) in
      (
        _,
        ap (λ x. and_then x (consume_contiguous_messages env (suc (suc fuel)) 1))
              (as_wrapped-none first_part first-Given.error)
            ∙ and_then-none first_part q (consume_contiguous_messages env (suc (suc fuel)) 1)
                first-Given.error done,
        rw whole_run (
            Given-append s slot a.subscriber_read_index seq to_end from_start first_part q
              first-Given
              (subst
                (λ l.
                  Given first_part.shared slot first_part.attachment.subscriber_read_index
                    (seq_after (length to_end) seq) l [] q)
                second_run g)),
      )

pub available-Given :
    (env : Surroundings) (fuel : ℕ) (a : PublisherAttachment) (s : SharedData) (slot seq : ℕ)
    → Quiet env
    → Sound s
    → InRange a
    → a.slot_index ≡ slot
    → s.descriptor_read_indices slot ≡ a.subscriber_read_index
    → Expecting a seq
    → AllReady s slot seq (waiting_run s a.subscriber_read_index)
    → (r : Reading) × (read_available env (suc (suc fuel)) a s ≡ some r)
      × Given s slot a.subscriber_read_index seq (waiting_run s a.subscriber_read_index) [] r
unfolding read_available
available-Given env fuel a s slot seq quiet sound range at_slot stored expecting ready =
    elim (dec_lt s.descriptor_write_index a.subscriber_read_index) [
      | no plain ↦
          let e : ltb s.descriptor_write_index a.subscriber_read_index ≡ false = ground arith in
          let f =
            pending-plain s.desc_ring a.subscriber_read_index s.descriptor_write_index (omega arith)
              sound.indices.write in
          let (r, done, g) =
            consume-Given env fuel 1 a s slot seq quiet sound range at_slot stored expecting
              (omega arith) (rw f at ready) in
          (r, rw e done, rw f g)
      | yes round ↦
          let e : ltb s.descriptor_write_index a.subscriber_read_index ≡ true = ground arith in
          let (r, done, g) =
            wrapped-Given env fuel a s slot seq quiet sound range at_slot stored expecting ready
              round in
          (r, rw e done, g)
    ]
