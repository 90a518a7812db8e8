-- ===== src/Publisher/Release.antt =====
-- Dropping a subscriber's references: `release_chunk_references_in_descriptor_range` and
-- `reap_dead_subscribers` of src/publisher.cpp.
use mathlib.Core.Option
use drive_bus.Prelude.{
  ℕ, zero, suc, ◌-◌, ◌+◌, ◌∷◌, Option, none, some, leb, ltb, ◌==◌, if◌then◌else◌, update,
}
use drive_bus.Layout.{max_subscribers, invalid_index, descriptor_slot_count, find_size_class}
use drive_bus.Shared.{SharedData}
use drive_bus.References.{held, freed, double_free, drop_reference}
use drive_bus.Publisher.{
  Publisher, RunError, chunk_reference_release_failed, dead_subscriber_reap_failed, find_slot,
  erase_slot, erase_fd,
}

-- The loop over the descriptors `start` to `start + n`. `none`: a descriptor's length has no size
-- class, and the code would index its tables with -1.
unfoldable pub release_range : ℕ → SharedData → ℕ → ℕ → Option (SharedData × Option RunError)
release_range zero s start slot = some (s, none)
release_range (suc n) s start slot = elim (find_size_class (s.desc_ring start).len) [
  | none ↦ none
  | some size_class ↦
      let (s', dropped) = drop_reference s size_class (s.desc_ring start).offset slot in
      elim dropped [
        | double_free ↦ some (s', some chunk_reference_release_failed)
        | held ↦ release_range n s' (start + 1) slot
        | freed ↦ release_range n s' (start + 1) slot
      ]
]

-- The part of the ring behind the read index, if the write index has gone round, then the part
-- before the write index. An error ends the release.
unfoldable pub release_unread : SharedData → ℕ → ℕ → ℕ → Option (SharedData × Option RunError)
release_unread s rd wr slot =
    if ltb wr rd
    then elim (release_range (descriptor_slot_count - rd) s rd slot) [
      | none ↦ none
      | some (s', e) ↦ elim e [ none ↦ release_range wr s' 0 slot | some err ↦ some (s', some err) ]
    ]
    else release_range (wr - rd) s rd slot

-- The descriptor of a slot leaves the tables and is closed, if the tables agree on the slot.
forget_subscriber : Publisher → ℕ → ℕ → Option ℕ → Publisher × Option RunError
forget_subscriber p slot fd none = (p, some dead_subscriber_reap_failed)
forget_subscriber p slot fd (some found) =
    if found == slot
    then (
      record p {
        slot_by_event_fd = erase_slot p.slot_by_event_fd fd;
        data_available_event_fds = erase_fd p.data_available_event_fds fd;
        closed = fd ∷ p.closed;
      },
      none,
    )
    else (p, some dead_subscriber_reap_failed)

-- What follows the release of the unread descriptors.
after_release : Publisher → ℕ → SharedData × Option RunError → Publisher × Option RunError
unfolding forget_subscriber
after_release p slot (s, some e) = (record p { shared_data = s }, some e)
after_release p slot (s, none) =
    forget_subscriber
      (record p {
        shared_data = record s {
          descriptor_read_indices = update s.descriptor_read_indices slot invalid_index;
        };
      })
      slot (p.event_fd_by_slot slot) (find_slot p.slot_by_event_fd (p.event_fd_by_slot slot))

unfoldable pub reap_dead_subscribers : Publisher → ℕ → Option (Publisher × Option RunError)
unfolding after_release release_unread
reap_dead_subscribers p slot =
    if leb max_subscribers slot
    then some (p, some dead_subscriber_reap_failed)
    else if s.descriptor_read_indices slot == invalid_index
    then some (p, some dead_subscriber_reap_failed)
    else Option.map (after_release p slot)
        (release_unread s (s.descriptor_read_indices slot) s.descriptor_write_index slot)
  where
    open p use {shared_data as s}
