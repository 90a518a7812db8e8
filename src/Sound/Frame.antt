-- ===== src/Sound/Frame.antt =====
-- What a write into one chunk leaves alone.
use mathlib.Core.Path.{ap₂}
use drive_bus.Prelude.{
  ℕ, suc, zero, ◌+◌, ◌≤◌, ◌<◌, ◌≡◌, ◌≢◌, ◌⊎◌, inl, inr, List, [], ◌∷◌, false, refl, sym, ap, subst,
  length, arith, ℕ_discrete, ◌∙◌, true, dec_lt,
}
use drive_bus.Layout.{class_size_bytes, chunk_count_by_size_class, local_chunk_index}
use drive_bus.Layout.Chunks.{chunk_offset, chunk_offset-Placed, chunks_disjoint}
use drive_bus.Bytes.{Bytes, load_word, load_bytes, of_bytes, store_word, to_bytes}
use drive_bus.Bytes.Laws.{store_bytes-outside, length-to_bytes}
use drive_bus.Shared.{SharedData}
use drive_bus.FreeList.Chain.{member, All, IsChunk, class_size_bytes-le-16}
use drive_bus.FreeList.Queue.{FreeList, FreeList-frame, All-left}
use drive_bus.Publisher.Publish.{write_message}

pub load_bytes-same :
    (m n : Bytes) (x k : ℕ)
    → ((y : ℕ) → x ≤ y → y < x + k → n y ≡ m y)
    → load_bytes n x k ≡ load_bytes m x k
unfolding load_bytes
load_bytes-same m n x zero same = refl
load_bytes-same m n x (suc k) same =
    ap₂ ◌∷◌ (same x (omega arith) (omega arith))
      (load_bytes-same m n (x + 1) k (λ y lo hi. same y (omega arith) (omega arith)))

-- Words are the same where their bytes are.
pub load_word-same :
    (m n : Bytes) (x : ℕ)
    → ((y : ℕ) → x ≤ y → y < x + 4 → n y ≡ m y)
    → load_word n x ≡ load_word m x
unfolding load_word
load_word-same m n x same = ap of_bytes (load_bytes-same m n x 4 same)

pub store_word-outside : (m : Bytes) (a v x : ℕ) → (x < a) ⊎ (a + 4 ≤ x) → store_word m a v x ≡ m x
unfolding store_word
store_word-outside m a v x h =
    store_bytes-outside m a (to_bytes 4 v) x (ground (arith, length-to_bytes 4 v))

-- A message is written inside its header and payload.
pub write_message-outside :
    (m : Bytes) (o seq : ℕ) (payload : List ℕ) (x : ℕ)
    → (x < o) ⊎ (o + (length payload + 8) ≤ x)
    → write_message m o seq payload x ≡ m x
unfolding write_message
write_message-outside m o seq payload x h =
    store_bytes-outside _ (o + 8) payload x (ground arith)
    ∙ (store_word-outside _ (o + 4) seq x (ground arith)
        ∙ store_word-outside m o _ x (ground arith))

-- An offset is that of chunks of one class only.
pub IsChunk-class : (c d o : ℕ) → c < 5 → d < 5 → IsChunk c o → IsChunk d o → c ≡ d
IsChunk-class c d o hc hd (i, hi, e) (j, hj, f) =
    (chunks_disjoint i j c d hc hd hi hj (ground (arith, class_size_bytes-le-16 d hd))
      (ground (arith, class_size_bytes-le-16 c hc))).0

-- A chunk is not in the list of another class.
pub member-other :
    (c d o : ℕ) (xs : List ℕ)
    → c < 5
    → d < 5
    → c ≢ d
    → IsChunk d o
    → All (IsChunk c) xs
    → member o xs ≡ false
unfolding member
member-other c d o [] hc hd ne k chunks = refl
member-other c d o (x ∷ xs) hc hd ne k chunks = elim (ℕ_discrete x o) [
  | yes e ↦ absurd (ne (IsChunk-class c d o hc hd (subst (IsChunk c) e chunks.0) k))
  | no other ↦ ground (arith, member-other c d o xs hc hd ne k chunks.1)
]

-- A write into a chunk of one class leaves the list of another.
pub FreeList-other :
    (s t : SharedData) (c d o : ℕ) (free : List ℕ)
    → c < 5
    → d < 5
    → c ≢ d
    → IsChunk d o
    → t.head c ≡ s.head c
    → t.tail c ≡ s.tail c
    → ((i : ℕ) → t.is_in_use c i ≡ s.is_in_use c i)
    → ((y : ℕ) → (y < o) ⊎ (o + class_size_bytes d ≤ y) → t.pool y ≡ s.pool y)
    → FreeList s c free
    → FreeList t c free
FreeList-other s t c d o free hc hd ne k eh et eu same l =
    FreeList-frame s t c d o free hc hd k
      (member-other c d o free hc hd ne k (All-left (IsChunk c) free (s.tail c ∷ []) l.chunks)) eh
      et eu (λ x h. load_word-same s.pool t.pool x (λ y lo hi. same y (ground arith))) l

-- The free list of a class is a matter of its head, its tail, its marks and the memory.
pub FreeList-same :
    (s t : SharedData) (c : ℕ) (free : List ℕ)
    → t.head c ≡ s.head c
    → t.tail c ≡ s.tail c
    → ((i : ℕ) → t.is_in_use c i ≡ s.is_in_use c i)
    → t.pool ≡ s.pool
    → FreeList s c free
    → FreeList t c free
FreeList-same s t c free eh et eu ep l = record {
  links = rw (eh, et, ep) l.links;
  chunks = rw et l.chunks;
  distinct = rw et l.distinct;
  tracked = λ i hi. rw (eu i, et) (l.tracked i hi);
}

-- The first chunk of a free list is not in use, and its number is computed back from its offset.
pub record First (s : SharedData) (c : ℕ) : Type 0 where
  pub number : ℕ
  pub few : number < chunk_count_by_size_class c
  pub place : s.head c ≡ chunk_offset c number
  pub local : local_chunk_index c (s.head c) ≡ number
  pub free : s.is_in_use c number ≡ false

pub oldest_chunk :
    (s : SharedData) (c f : ℕ) (fs : List ℕ) → c < 5 → FreeList s c (f ∷ fs) → First s c
unfolding member
oldest_chunk s c f fs hc l =
    let (i, hi, e) = l.chunks.0 in
    record {
      number = i;
      few = hi;
      place = l.links.0 ∙ e;
      local =
          subst (λ o. local_chunk_index c o ≡ i) (sym (l.links.0 ∙ e))
            (chunk_offset-Placed c i hc hi).local;
      free = ground (arith, l.tracked i hi);
    }

-- A chunk in use lies apart from a chunk that is free.
pub used-apart :
    (s : SharedData) (c i d j : ℕ)
    → c < 5
    → d < 5
    → i < chunk_count_by_size_class c
    → j < chunk_count_by_size_class d
    → s.is_in_use c i ≡ true
    → s.is_in_use d j ≡ false
    → (chunk_offset c i + class_size_bytes c ≤ chunk_offset d j)
      ⊎ (chunk_offset d j + class_size_bytes d ≤ chunk_offset c i)
used-apart s c i d j hc hd hi hj used unused =
    elim (dec_lt (chunk_offset d j) (chunk_offset c i + class_size_bytes c)) [
      | no a ↦ inl (omega arith)
      | yes a ↦ elim (dec_lt (chunk_offset c i) (chunk_offset d j + class_size_bytes d)) [
        | no b ↦ inr (omega arith)
        | yes b ↦
            let (e, f) = chunks_disjoint i j c d hc hd hi hj b a in
            absurd (cc (used, unused, ap₂ s.is_in_use e f))
      ]
    ]
