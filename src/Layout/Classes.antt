-- ===== src/Layout/Classes.antt =====
-- `find_size_class` picks the smallest class that holds a length.
use drive_bus.Prelude.{
  ℕ, zero, suc, ◌-◌, ◌≤◌, ◌<◌, ◌≡◌, inl, inr, true, false, Option, none, some, refl, leb, leb→le,
  holds_up_to, holds_up_to-at, Option-cases, arith,
}
use native.Mathlib.Decide.{dec_le}
use drive_bus.Layout.{class_size_bytes, find_size_class}

-- A size class is one of five.
pub class_cases {ℓ} : (P : ℕ → Type ℓ) → P 0 → P 1 → P 2 → P 3 → P 4 → (c : ℕ) → c < 5 → P c
class_cases P a b d e f zero h = a
class_cases P a b d e f (suc zero) h = b
class_cases P a b d e f (suc (suc zero)) h = d
class_cases P a b d e f (suc (suc (suc zero))) h = e
class_cases P a b d e f (suc (suc (suc (suc zero)))) h = f
class_cases P a b d e f (suc (suc (suc (suc (suc c))))) h = absurd (omega arith)

class_table :
    holds_up_to (λ c. holds_up_to (λ d. leb (class_size_bytes d) (class_size_bytes (c - 1))) c) 5
    ≡ true
unfolding holds_up_to
class_table = refl

-- The classes grow.
class_size_bytes-le : (c d : ℕ) → c < 5 → d < c → class_size_bytes d ≤ class_size_bytes (c - 1)
class_size_bytes-le c d hc hd = leb→le _ _ (
    holds_up_to-at _ c
      (holds_up_to-at
        (λ c. holds_up_to (λ d. leb (class_size_bytes d) (class_size_bytes (c - 1))) c) 5
        class_table c hc)
      d hd)

-- What the result of `find_size_class` says of the length.
abbrev pub Fits : ℕ → Option ℕ → Type 0
Fits size none = class_size_bytes 4 < size
Fits size (some c) =
    (c < 5) × (size ≤ class_size_bytes c) × ((d : ℕ) → d < c → class_size_bytes d < size)

-- The class of a length is the smallest of the five that holds it, and there is none exactly when
-- the length exceeds the largest class.
pub find_size_class-Fits : (size : ℕ) → Fits size (find_size_class size)
unfolding find_size_class
find_size_class-Fits size = elim (dec_le size 16) [
  | yes a ↦ rw (leb_yes a) (omega arith, a, λ d h. absurd (omega arith))
  | no a ↦ rw (leb_no a) (elim (dec_le size 128) [
    | yes b ↦ rw (leb_yes b) (omega arith, b, λ d h. over 1 d h (omega arith))
    | no b ↦ rw (leb_no b) (elim (dec_le size 256) [
      | yes c ↦ rw (leb_yes c) (omega arith, c, λ d h. over 2 d h (omega arith))
      | no c ↦ rw (leb_no c) (elim (dec_le size 512) [
        | yes e ↦ rw (leb_yes e) (omega arith, e, λ d h. over 3 d h (omega arith))
        | no e ↦ rw (leb_no e) (elim (dec_le size 1024) [
          | yes f ↦ rw (leb_yes f) (omega arith, f, λ d h. over 4 d h (omega arith))
          | no f ↦ rw (leb_no f) (omega arith)
        ])
      ])
    ])
  ])
]
  where
    leb_yes : {a b : ℕ} → a ≤ b → leb a b ≡ true
    leb_yes h = ground arith

    leb_no : {a b : ℕ} → ¬ (a ≤ b) → leb a b ≡ false
    leb_no h = ground arith

    over :
        (c d : ℕ) → d < c → (c < 5) × (class_size_bytes (c - 1) < size) → class_size_bytes d < size
    over c d h k = omega (arith, class_size_bytes-le c d k.0 h, k.1)

-- The size class of every length between the header and the largest chunk exists.
pub find_size_class-some :
    (size : ℕ)
    → size ≤ 1024
    → (c : ℕ) × (find_size_class size ≡ some c) × (c < 5) × (size ≤ class_size_bytes c)
find_size_class-some size h = elim (Option-cases (find_size_class size)) [
  | inl e ↦ absurd (let f : Fits size none = rw e at (find_size_class-Fits size) in omega arith)
  | inr (c, e) ↦
      let f : Fits size (some c) = rw e at (find_size_class-Fits size) in (c, e, f.0, f.1)
]
