-- ===== src/FreeList/Chain.antt =====
-- Chunks linked in memory.

use drive_bus.Prelude.{
  ℕ, ◌+◌, ◌^◌, ◌≤◌, ◌<◌, ◌≡◌, ◌≢◌, ◌⊎◌, inl, inr, refl, Bool, false, ◌||◌, ◌==◌, dec_lt, List, [],
  ◌∷◌, ◌++◌, sym, ◌∙◌, arith,
}
use drive_bus.Layout.{class_size_bytes, chunk_count_by_size_class}
use drive_bus.Layout.Chunks.{chunk_offset, chunks_disjoint}
use drive_bus.Layout.Classes.{class_cases}
use drive_bus.Bytes.{Bytes, load_word, store_word}
use drive_bus.Bytes.Laws.{load_word-store_word}

unfoldable pub member : ℕ → List ℕ → Bool
member o [] = false
member o (x ∷ xs) = x == o || member o xs

abbrev pub Distinct : List ℕ → Type 0
Distinct [] = Unit {0}
Distinct (x ∷ xs) = (member x xs ≡ false) × Distinct xs

abbrev pub All {ℓ} : (ℕ → Type ℓ) → List ℕ → Type ℓ
All P [] = Unit
All P (x ∷ xs) = P x × All P xs

-- An offset of a chunk of class `c`.
abbrev pub IsChunk : ℕ → ℕ → Type 0
IsChunk c o = (i : ℕ) × (i < chunk_count_by_size_class c) × (o ≡ chunk_offset c i)

-- From `h` the links lead through the chunks `xs` to `t`.
abbrev pub Links : Bytes → ℕ → ℕ → List ℕ → Type 0
Links m h t [] = h ≡ t
Links m h t (x ∷ xs) = (h ≡ x) × Links m (load_word m x) t xs

pub member-append : (o : ℕ) (xs ys : List ℕ) → member o (xs ++ ys) ≡ (member o xs || member o ys)
unfolding member
member-append o [] ys = refl
member-append o (x ∷ xs) ys = ground (arith, member-append o xs ys)

-- Different chunks do not overlap.
pub IsChunk-apart :
    (c d o p : ℕ)
    → c < 5
    → d < 5
    → IsChunk c o
    → IsChunk d p
    → o ≢ p
    → (o + class_size_bytes c ≤ p) ⊎ (p + class_size_bytes d ≤ o)
IsChunk-apart c d o p hc hd (i, hi, e) (j, hj, f) ne = elim (dec_lt p (o + class_size_bytes c)) [
  | no a ↦ inl (omega arith)
  | yes a ↦ elim (dec_lt o (p + class_size_bytes d)) [
    | no b ↦ inr (omega arith)
    | yes b ↦
        let r : (c ≡ d) × (i ≡ j) =
          chunks_disjoint i j c d hc hd hi hj (rw (← e, ← f) b) (rw (← e, ← f) a) in
        absurd (ne (e ∙ rw (r.0, r.1) (sym f)))
  ]
]

pub class_size_bytes-le-16 : (c : ℕ) → c < 5 → 16 ≤ class_size_bytes c
class_size_bytes-le-16 =
    class_cases (λ c. 16 ≤ class_size_bytes c) (omega arith) (omega arith) (omega arith)
      (omega arith) (omega arith)

-- Links depend on the first words of their chunks only.
pub Links-frame :
    (m n : Bytes) (h t : ℕ) (xs : List ℕ)
    → All (λ x. load_word n x ≡ load_word m x) xs
    → Links m h t xs
    → Links n h t xs
Links-frame m n h t [] same l = l
Links-frame m n h t (x ∷ xs) same l =
    (l.0, rw same.0 (Links-frame m n (load_word m x) t xs same.1 l.1))

-- Linking the last chunk to one more extends the list.
pub Links-snoc :
    (m : Bytes) (h t o : ℕ) (xs : List ℕ)
    → o < 2 ^ 32
    → All (λ x. load_word (store_word m t o) x ≡ load_word m x) xs
    → Links m h t xs
    → Links (store_word m t o) h o (xs ++ t ∷ [])
Links-snoc m h t o [] small same l = (l, load_word-store_word m t o small)
Links-snoc m h t o (x ∷ xs) small same l =
    (l.0, rw same.0 (Links-snoc m (load_word m x) t o xs small same.1 l.1))

-- A chunk outside a list of chunks of class `c` shares no word with them.
pub All-apart :
    (c d o : ℕ) (xs : List ℕ)
    → c < 5
    → d < 5
    → IsChunk d o
    → All (IsChunk c) xs
    → member o xs ≡ false
    → All (λ x. (x + 4 ≤ o) ⊎ (o + class_size_bytes d ≤ x)) xs
unfolding member
All-apart c d o [] hc hd k chunks out = tt
All-apart c d o (x ∷ xs) hc hd k chunks out = (
  ground (arith, IsChunk-apart c d x o hc hd chunks.0 k, class_size_bytes-le-16 c hc),
  All-apart c d o xs hc hd k chunks.1 (ground arith),
)

pub chunk_offset-injective : (c i j : ℕ) → c < 5 → chunk_offset c i ≡ chunk_offset c j → i ≡ j
chunk_offset-injective c i j hc =
    class_cases (λ c. chunk_offset c i ≡ chunk_offset c j → i ≡ j) (omega arith) (omega arith)
      (omega arith) (omega arith) (omega arith) c hc
