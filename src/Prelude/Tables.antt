-- ===== src/Prelude/Tables.antt =====
-- Fixed arrays as functions of the index, and checks of a property over a small range of numbers.
use Prim.Native.Nat.{ℕ, zero, suc, ◌<◌}
use mathlib.Core.Path.{◌≡◌}
use mathlib.Core.Bool.{Bool, true, ◌&&◌}
use native.Mathlib.Omega.{arith}
use drive_bus.Prelude.Tests.{◌==◌, if◌then◌else◌}

-- `f[i] = a`
abbrev pub update {ℓ} : {A : Type ℓ} → (ℕ → A) → ℕ → A → ℕ → A
update f i a j = if i == j then a else f j

unfoldable pub holds_up_to : (ℕ → Bool) → ℕ → Bool
holds_up_to p zero = true
holds_up_to p (suc n) = holds_up_to p n && p n

pub holds_up_to-at : (p : ℕ → Bool) (n : ℕ) → holds_up_to p n ≡ true → (i : ℕ) → i < n → p i ≡ true
unfolding holds_up_to
holds_up_to-at p zero all i few = absurd (omega arith)
holds_up_to-at p (suc n) all i few = ground (arith, holds_up_to-at p n (ground arith) i)
