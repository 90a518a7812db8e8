-- ===== src/Prelude/Maps.antt =====
-- `std::unordered_map` as an association list, a key standing in it once.
use Prim.Native.Nat.{ℕ}
use mathlib.Core.List.{List, [], ◌∷◌}
use mathlib.Core.Option.{Option, none, some}
use drive_bus.Prelude.Tests.{◌==◌, if◌then◌else◌}

-- `find`
unfoldable pub find {ℓ} : {A : Type ℓ} → ℕ → List (ℕ × A) → Option A
find k [] = none
find k ((j, v) ∷ m) = if j == k then some v else find k m

-- `erase` of a key
unfoldable pub erase {ℓ} : {A : Type ℓ} → ℕ → List (ℕ × A) → List (ℕ × A)
erase k [] = []
erase k ((j, v) ∷ m) = if j == k then m else (j, v) ∷ erase k m

-- The assignment `m[k] = v`
unfoldable pub put {ℓ} : {A : Type ℓ} → ℕ → A → List (ℕ × A) → List (ℕ × A)
put k v [] = (k, v) ∷ []
put k v ((j, w) ∷ m) = if j == k then (j, v) ∷ m else (j, w) ∷ put k v m

-- `m[k]` where a missing key gets the default
abbrev pub find_or {ℓ} : {A : Type ℓ} → Option A → A → A
find_or none a = a
find_or (some b) a = b

-- `insert({k, v})`, which keeps a value that is there
unfoldable pub insert {ℓ} : {A : Type ℓ} → ℕ → A → List (ℕ × A) → List (ℕ × A)
insert k v m = elim (find k m) [ none ↦ (k, v) ∷ m | some w ↦ m ]
