-- ===== src/FreeList/Queue.antt =====
-- The free list of a class is a queue of its chunks: taken from the front, returned at the back.
use drive_bus.Prelude.{
  ℕ, ◌+◌, ◌≤◌, ◌<◌, ◌≡◌, ◌≢◌, ◌↔◌, ◌⊎◌, refl, true, false, not, ◌||◌, ◌==◌, ==_iff, List, [], ◌∷◌,
  ◌++◌, ap, if◌then◌else◌, ==_refl, arith, ℕ_discrete,
}
use drive_bus.Layout.{class_size_bytes, chunk_count_by_size_class}
use drive_bus.Layout.Chunks.{chunk_offset, chunk_offset-Placed}
use drive_bus.Bytes.{Bytes, load_word, store_word}
use drive_bus.Bytes.Laws.{load_word-outside}
use drive_bus.Shared.{SharedData}
use drive_bus.FreeList.{set_in_use, no_free_chunk, take_chunk, append_chunk}
use drive_bus.FreeList.Chain.{
  member, Distinct, All, IsChunk, Links, member-append, All-apart, Links-frame, Links-snoc,
  chunk_offset-injective, class_size_bytes-le-16,
}

-- The chunks of the list, with the last, which is not taken.
abbrev pub contents : SharedData → ℕ → List ℕ → List ℕ
contents s c free = free ++ s.tail c ∷ []

-- The free list of class `c` holds the chunks `free`, oldest first, before its last chunk; they are
-- distinct chunks of the class, and the tracker marks exactly the other chunks as in use.
pub record FreeList (s : SharedData) (c : ℕ) (free : List ℕ) : Type 0 where
  pub links : Links s.pool (s.head c) (s.tail c) free
  pub chunks : All (IsChunk c) (contents s c free)
  pub distinct : Distinct (contents s c free)
  pub tracked :
      (i : ℕ)
      → i < chunk_count_by_size_class c
      → s.is_in_use c i ≡ not (member (chunk_offset c i) (contents s c free))

All-map : {P Q : ℕ → Type 0} (xs : List ℕ) → ((x : ℕ) → P x → Q x) → All P xs → All Q xs
All-map [] f a = tt
All-map (x ∷ xs) f a = (f x a.0, All-map xs f a.1)

All-append : (P : ℕ → Type 0) (xs ys : List ℕ) → All P xs → All P ys → All P (xs ++ ys)
All-append P [] ys a b = b
All-append P (x ∷ xs) ys a b = (a.0, All-append P xs ys a.1 b)

pub All-left : (P : ℕ → Type 0) (xs ys : List ℕ) → All P (xs ++ ys) → All P xs
All-left P [] ys a = tt
All-left P (x ∷ xs) ys a = (a.0, All-left P xs ys a.1)

pub All-last : (P : ℕ → Type 0) (xs : List ℕ) (y : ℕ) → All P (xs ++ y ∷ []) → P y
All-last P [] y a = a.0
All-last P (x ∷ xs) y a = All-last P xs y a.1

-- In a list of distinct entries the last is not among the others.
Distinct-last : (xs : List ℕ) (y : ℕ) → Distinct (xs ++ y ∷ []) → member y xs ≡ false
unfolding member
Distinct-last [] y d = refl
Distinct-last (x ∷ xs) y d =
    ground (arith, member-append x xs (y ∷ []), Distinct-last xs y d.1, ==_iff x y)

Distinct-snoc : (xs : List ℕ) (y : ℕ) → Distinct xs → member y xs ≡ false → Distinct (xs ++ y ∷ [])
unfolding member
Distinct-snoc [] y d h = (refl, tt)
Distinct-snoc (x ∷ xs) y d h =
    (ground (arith, member-append x xs (y ∷ [])), Distinct-snoc xs y d.1 (ground arith))

-- For a well-formed free list, `head_off == tail_off` holds exactly when the list of the chunks that can
-- be taken is empty.
pub no_free_chunk_iff :
    (s : SharedData) (c : ℕ) (free : List ℕ)
    → FreeList s c free
    → (no_free_chunk s c ≡ true) ↔ (free ≡ [])
unfolding member
no_free_chunk_iff s c [] l = ground arith
no_free_chunk_iff s c (x ∷ xs) l = ground (arith, member-append x xs (s.tail c ∷ []))

-- From a well-formed free list that is not empty the publisher takes the oldest chunk, number `i` of
-- its class, and marks it: the list is well-formed again, without that chunk.
pub take_chunk-FreeList :
    (s : SharedData) (c i f : ℕ) (fs : List ℕ)
    → c < 5
    → FreeList s c (f ∷ fs)
    → f ≡ chunk_offset c i
    → FreeList (take_chunk (set_in_use s c i true) c) c fs
unfolding take_chunk set_in_use member
take_chunk-FreeList s c i f fs hc l e = record {
  links = ground arith;
  chunks = l.chunks.1;
  distinct = l.distinct.1;
  tracked = λ j hj. elim (ℕ_discrete i j) [
    | yes same ↦ ground arith
    | no other ↦ ground (arith, l.tracked j hj, chunk_offset-injective c i j hc)
  ];
}

-- A write that stays inside a chunk leaves the first words of other chunks alone.
pub same_words :
    (m n : Bytes) (c d o : ℕ) (xs : List ℕ)
    → c < 5
    → d < 5
    → IsChunk d o
    → All (IsChunk c) xs
    → member o xs ≡ false
    → ((x : ℕ) → (x + 4 ≤ o) ⊎ (o + class_size_bytes d ≤ x) → load_word n x ≡ load_word m x)
    → All (λ x. load_word n x ≡ load_word m x) xs
same_words m n c d o xs hc hd k chunks out same =
    All-map xs same (All-apart c d o xs hc hd k chunks out)

-- A chunk that is marked in use is returned to a well-formed free list, its mark cleared: the list is
-- well-formed again, with the chunk that was last before now the newest that can be taken.
pub append_chunk-FreeList :
    (s : SharedData) (c i : ℕ) (free : List ℕ)
    → c < 5
    → i < chunk_count_by_size_class c
    → FreeList s c free
    → s.is_in_use c i ≡ true
    → FreeList
        (append_chunk (set_in_use s c i false) c (chunk_offset c i))
        c
        (free ++ s.tail c ∷ [])
unfolding append_chunk set_in_use member
append_chunk-FreeList s c i free hc hi l used = record {
  links = rw (==_refl c) (
      Links-snoc s.pool (s.head c) (s.tail c) o free
        (omega (arith, (chunk_offset-Placed c i hc hi).pool)) same l.links);
  chunks = rw (==_refl c) (All-append (IsChunk c) _ (o ∷ []) l.chunks ((i, hi, refl), tt));
  distinct = rw (==_refl c) (Distinct-snoc _ o l.distinct fresh);
  tracked = λ j hj. elim (ℕ_discrete i j) [
    | yes e ↦
        rw (==_refl c, member-append (chunk_offset c j) (contents s c free) (o ∷ [])) (last j e)
    | no ne ↦
        rw (==_refl c, member-append (chunk_offset c j) (contents s c free) (o ∷ []))
          (others j hj ne)
  ];
}
  where
    o : ℕ
    o = chunk_offset c i

    fresh : member o (contents s c free) ≡ false
    fresh = ground (arith, l.tracked i hi)

    same : All (λ x. load_word (store_word s.pool (s.tail c) o) x ≡ load_word s.pool x) free
    same =
        same_words s.pool _ c c (s.tail c) free hc hc
          (All-last (IsChunk c) free (s.tail c) l.chunks)
          (All-left (IsChunk c) free (s.tail c ∷ []) l.chunks)
          (Distinct-last free (s.tail c) l.distinct)
          (λ x h.
            load_word-outside s.pool (s.tail c) o x (ground (arith, class_size_bytes-le-16 c hc)))

    last :
        (j : ℕ)
        → i ≡ j
        → (if i == j then false else s.is_in_use c j)
          ≡ not
              (member (chunk_offset c j) (contents s c free) || member (chunk_offset c j) (o ∷ []))
    last j e = ground (arith, ap (λ (k : ℕ). chunk_offset c k) e)

    others :
        (j : ℕ)
        → j < chunk_count_by_size_class c
        → i ≢ j
        → (if i == j then false else s.is_in_use c j)
          ≡ not
              (member (chunk_offset c j) (contents s c free) || member (chunk_offset c j) (o ∷ []))
    others j hj ne = ground (arith, l.tracked j hj, chunk_offset-injective c i j hc)

-- What a step does to one class leaves the free lists of the other classes as they are: the two
-- states have the same head, tail and marks there, and memory differs inside one chunk only, which
-- is not in the list.
pub FreeList-frame :
    (s t : SharedData) (c d o : ℕ) (free : List ℕ)
    → c < 5
    → d < 5
    → IsChunk d o
    → member o free ≡ false
    → t.head c ≡ s.head c
    → t.tail c ≡ s.tail c
    → ((i : ℕ) → t.is_in_use c i ≡ s.is_in_use c i)
    → ((x : ℕ)
        → (x + 4 ≤ o) ⊎ (o + class_size_bytes d ≤ x)
        → load_word t.pool x ≡ load_word s.pool x)
    → FreeList s c free
    → FreeList t c free
FreeList-frame s t c d o free hc hd k out eh et eu same l = record {
  links =
      rw (eh, et)
        (Links-frame s.pool t.pool (s.head c) (s.tail c) free
          (same_words s.pool t.pool c d o free hc hd k
            (All-left (IsChunk c) free (s.tail c ∷ []) l.chunks) out same)
          l.links);
  chunks = rw et l.chunks;
  distinct = rw et l.distinct;
  tracked = λ i hi. rw (eu i, et) (l.tracked i hi);
}
