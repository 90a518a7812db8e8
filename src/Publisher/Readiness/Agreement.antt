-- ===== src/Publisher/Readiness/Agreement.antt =====
-- `can_publish_next_message` against `try_publish_one`, of src/publisher.cpp.
use native.Mathlib.Nat.{add_comm}
use native.Mathlib.Omega.{arith}
use drive_bus.Prelude.{
  ℕ, ◌+◌, ◌-◌, ◌%◌, ◌≤◌, ◌≡◌, ◌↔◌, List, Option, none, some, inl, inr, Bool, Bool-cases, refl,
  subst, true, false, ltb, ◌||◌, length,
}
use drive_bus.Layout.{word_mod, find_size_class, first_offset, last_offset, local_chunk_index}
use drive_bus.FreeList.{no_free_chunk}
use drive_bus.Ring.{find_slowest_read_index, is_blocked}
use drive_bus.Publisher.{Publisher}
use drive_bus.Publisher.Publish.{
  signal_all, finish_publish, publish_in_class, publish_sized, try_publish_one, attempt,
  message_header_size_bytes,
}
use drive_bus.Publisher.{PublishAttempt}
use drive_bus.Publisher.Readiness.{
  readiness_in_class, can_publish_next_message, readiness, PublishReadiness,
}

-- After the tests for room an attempt does not end `blocked`.
finish_publish-apart :
    (signal : ℕ → Bool) (p : Publisher) (chunk : ℕ) (mask : Option ℕ)
    → ¬ ((finish_publish signal p chunk mask).1 ≡ attempt PublishAttempt.blocked)
unfolding finish_publish
finish_publish-apart signal p chunk none e = absurd (ground arith)
finish_publish-apart signal p chunk (some mask) e =
    elim (Bool-cases (signal_all signal p.data_available_event_fds)) [
      | inl t ↦ absurd (ground arith)
      | inr t ↦ absurd (ground arith)
    ]

publish_in_class-apart :
    (signal : ℕ → Bool) (p : Publisher) (payload : List ℕ) (size c : ℕ)
    → no_free_chunk p.shared_data c ≡ false
    → ¬ ((publish_in_class signal p payload size c).1 ≡ attempt PublishAttempt.blocked)
unfolding publish_in_class
publish_in_class-apart signal p payload size c n =
    elim (Bool-cases (ltb head_off (first_offset c) || ltb (last_offset c) head_off)) [
      | inl o ↦ rw (n, o) (λ e. absurd (ground arith))
      | inr o ↦ elim (Bool-cases (p.shared_data.is_in_use c (local_chunk_index c head_off))) [
        | inl u ↦ rw (n, o, u) (λ e. absurd (ground arith))
        | inr u ↦ rw (n, o, u) (finish_publish-apart signal _ _ _)
      ]
    ]
  where
    head_off : ℕ
    head_off = p.shared_data.head c

publish_in_class-full :
    (signal : ℕ → Bool) (p : Publisher) (payload : List ℕ) (size c : ℕ)
    → no_free_chunk p.shared_data c ≡ true
    → (publish_in_class signal p payload size c).1 ≡ attempt PublishAttempt.blocked
unfolding publish_in_class
publish_in_class-full signal p payload size c n = rw n refl

publish_sized-blocked :
    (signal : ℕ → Bool) (p : Publisher) (payload : List ℕ) (size : ℕ) (class : Option ℕ)
    → ((publish_sized signal p payload size class).1 ≡ attempt PublishAttempt.blocked)
      ↔ (readiness_in_class p.shared_data class ≡ readiness PublishReadiness.blocked)
unfolding publish_sized readiness_in_class
publish_sized-blocked signal p payload size none =
    (λ e. absurd (ground arith), λ e. absurd (ground arith))
publish_sized-blocked signal p payload size (some c) =
    elim (Bool-cases
      (is_blocked (find_slowest_read_index p.shared_data) p.shared_data.descriptor_write_index)) [
        | inl b ↦ rw b (λ e. refl, λ e. refl)
        | inr b ↦ elim (Bool-cases (no_free_chunk p.shared_data c)) [
          | inl n ↦ rw (b, n) (λ e. refl, λ e. publish_in_class-full signal p payload size c n)
          | inr n ↦
              rw (b, n)
                (
                  λ e. absurd (publish_in_class-apart signal p payload size c n e),
                  λ e. absurd (ground arith),
                )
        ]
      ]

-- For a payload whose size with the header fits 32 bits, `try_publish_one` ends `blocked` exactly when
-- `can_publish_next_message` answers `blocked` for that payload in the same state.
pub try_publish_one-blocked_iff :
    (signal : ℕ → Bool) (p : Publisher) (payload : List ℕ)
    → length payload ≤ word_mod - 1 - message_header_size_bytes
    → ((try_publish_one signal p payload).1 ≡ attempt PublishAttempt.blocked) ↔ (
        can_publish_next_message p.shared_data (some (length payload))
        ≡ readiness PublishReadiness.blocked)
unfolding try_publish_one can_publish_next_message
try_publish_one-blocked_iff signal p payload h =
    elim (Bool-cases (ltb (word_mod - 1 - message_header_size_bytes) (length payload))) [
      | inl t ↦ absurd (ground arith)
      | inr t ↦ rw t (
          subst
            (λ n.
              ((publish_sized signal p payload (n % word_mod) (find_size_class (n % word_mod))).1
                ≡ attempt PublishAttempt.blocked)
              ↔ (readiness_in_class p.shared_data
                    (find_size_class ((message_header_size_bytes + length payload) % word_mod))
                  ≡ readiness PublishReadiness.blocked))
            (add_comm message_header_size_bytes (length payload))
            (publish_sized-blocked signal p payload _ _))
    ]
