-- ===== src/Mask.antt =====
-- The reference mask of a chunk: `chunk_reference_counts[chunk]` holds one bit for each subscriber
-- slot that has still to read the chunk. The bits are read and cleared digit by digit.
pub mod Laws
use drive_bus.Prelude.{ℕ, zero, suc, ◌+◌, ◌-◌, ◌*◌, ◌/◌, ◌%◌, ◌^◌, Bool, ◌==◌}
use drive_bus.Layout.{word_mod}

-- `1 << slot_index`, in `uint32_t`.
abbrev pub slot_bit : ℕ → ℕ
slot_bit slot = 2 ^ slot % word_mod

-- `mask & (1 << slot)`, as a test.
unfoldable pub test_bit : ℕ → ℕ → Bool
test_bit mask zero = mask % 2 == 1
test_bit mask (suc slot) = test_bit (mask / 2) slot

-- `mask & ~(1 << slot)`
unfoldable pub clear_bit : ℕ → ℕ → ℕ
clear_bit mask zero = mask - mask % 2
clear_bit mask (suc slot) = mask % 2 + 2 * clear_bit (mask / 2) slot
