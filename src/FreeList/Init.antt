-- ===== src/FreeList/Init.antt =====
-- `initialize_shared_data` leaves every class with all its chunks free.
use drive_bus.Prelude.{
  ℕ, zero, suc, ◌+◌, ◌-◌, ◌*◌, ◌%◌, ◌^◌, ◌≤◌, ◌<◌, ◌≡◌, ◌⊎◌, inl, refl, true, false, List, [], ◌∷◌,
  ◌++◌, sym, ap, subst, arith, update, ◌∙◌, ℕ_discrete, leb, leb→le, holds_up_to, holds_up_to-at,
}
use drive_bus.Layout.{
  word_mod, class_size_bytes, chunk_count_by_size_class, invalid_offset, first_offset, last_offset,
}
use drive_bus.Layout.Classes.{class_cases}
use drive_bus.Layout.Chunks.{chunk_offset}
use drive_bus.Bytes.{Bytes, load_word, store_word}
use drive_bus.Bytes.Laws.{load_word-outside, load_word-store_word}
use drive_bus.Shared.{
  SharedData, link_chunks, initial_links, initial_heads, initial_tails, initialize_shared_data,
  initialize_chunk_usage_tracker,
}
use drive_bus.FreeList.Chain.{member, Distinct, All, IsChunk, Links, Links-frame}
use drive_bus.FreeList.Queue.{FreeList}

-- The offsets of `n` chunks of one size from `offset` on.
abbrev pub offsets_run : ℕ → ℕ → ℕ → List ℕ
offsets_run offset size zero = []
offsets_run offset size (suc n) = offset ∷ offsets_run (offset + size) size n

no_wrap : (a b : ℕ) → a + b < 2 ^ 32 → (a + b) % word_mod ≡ a + b
no_wrap a b h = omega arith

-- Linking a run of chunks writes into those chunks only.
link_chunks-outside :
    (n size offset : ℕ) (m : Bytes) (x : ℕ)
    → 4 ≤ size
    → offset + n * size < 2 ^ 32
    → (x + 4 ≤ offset) ⊎ (offset + n * size + 4 ≤ x)
    → load_word (link_chunks n size offset m) x ≡ load_word m x
unfolding link_chunks
link_chunks-outside zero size offset m x big fits h =
    load_word-outside m offset invalid_offset x (omega arith)
link_chunks-outside (suc n) size offset m x big fits h = rw (no_wrap offset size (omega arith)) (
    link_chunks-outside n size (offset + size) (store_word m offset (offset + size)) x big
      (omega arith) (omega arith)
    ∙ load_word-outside m offset (offset + size) x (omega arith))

link_chunks-suc :
    (n size offset : ℕ) (m : Bytes)
    → offset + size < 2 ^ 32
    → link_chunks (suc n) size offset m
      ≡ link_chunks n size (offset + size) (store_word m offset (offset + size))
unfolding link_chunks
link_chunks-suc n size offset m h = rw (no_wrap offset size h)

link_chunks-Links :
    (n size offset end : ℕ) (m : Bytes)
    → 4 ≤ size
    → end ≡ offset + n * size
    → end < 2 ^ 32
    → Links (link_chunks n size offset m) offset end (offsets_run offset size n)
link_chunks-Links zero size offset end m big e fits = omega arith
link_chunks-Links (suc n) size offset end m big e fits =
    subst (λ k. Links k offset end (offsets_run offset size (suc n)))
      (sym (link_chunks-suc n size offset m (omega arith)))
      (refl, rw next (link_chunks-Links n size (offset + size) end after big (omega arith) fits))
  where
    after : Bytes
    after = store_word m offset (offset + size)

    next : load_word (link_chunks n size (offset + size) after) offset ≡ offset + size
    next =
        link_chunks-outside n size (offset + size) after offset big (omega arith) (omega arith)
        ∙ load_word-store_word m offset (offset + size) (omega arith)

-- The run of a class, counted from its chunk `i`.
abbrev run_from : ℕ → ℕ → ℕ → List ℕ
run_from c i n = offsets_run (chunk_offset c i) (class_size_bytes c) n

All-offsets_run :
    (c n i : ℕ) → i + n ≤ chunk_count_by_size_class c → All (IsChunk c) (run_from c i n)
All-offsets_run c zero i h = tt
All-offsets_run c (suc n) i h =
    ((i, omega arith, refl), rw step (All-offsets_run c n (i + 1) (omega arith)))
  where
    step : chunk_offset c i + class_size_bytes c ≡ chunk_offset c (i + 1)
    step = omega arith

offsets_run-below :
    (size n offset o : ℕ) → o < offset → member o (offsets_run offset size n) ≡ false
unfolding member
offsets_run-below size zero offset o h = refl
offsets_run-below size (suc n) offset o h =
    ground (arith, offsets_run-below size n (offset + size) o)

offsets_run-Distinct : (size n offset : ℕ) → 0 < size → Distinct (offsets_run offset size n)
offsets_run-Distinct size zero offset h = tt
offsets_run-Distinct size (suc n) offset h = (
  offsets_run-below size n (offset + size) offset (omega arith),
  offsets_run-Distinct size n (offset + size) h,
)

offsets_run-member :
    (size n offset i o : ℕ)
    → i < n
    → o ≡ offset + size * i
    → member o (offsets_run offset size n) ≡ true
unfolding member
offsets_run-member size zero offset i o h e = absurd (omega arith)
offsets_run-member size (suc n) offset zero o h e = ground arith
offsets_run-member size (suc n) offset (suc i) o h e =
    ground (arith, offsets_run-member size n (offset + size) i o (omega arith) (omega arith))

offsets_run-below_end :
    (size n offset b : ℕ)
    → offset + n * size + 4 ≤ b + size
    → All (λ x. x + 4 ≤ b) (offsets_run offset size n)
offsets_run-below_end size zero offset b h = tt
offsets_run-below_end size (suc n) offset b h =
    (grind arith, offsets_run-below_end size n (offset + size) b (omega arith))

offsets_run-snoc :
    (size n offset end : ℕ)
    → end ≡ offset + n * size
    → offsets_run offset size n ++ end ∷ [] ≡ offsets_run offset size (suc n)
offsets_run-snoc size zero offset end e = ap (λ k. k ∷ []) (omega arith)
offsets_run-snoc size (suc n) offset end e =
    ap (λ l. offset ∷ l) (offsets_run-snoc size n (offset + size) end (omega arith))

-- What the constants say of a class.
record Extent (c : ℕ) : Type 0 where
  four : 4 ≤ class_size_bytes c
  some_chunk : 0 < chunk_count_by_size_class c
  end : last_offset c ≡ first_offset c + (chunk_count_by_size_class c - 1) * class_size_bytes c
  small : last_offset c < 2 ^ 32

extent : (c : ℕ) → c < 5 → Extent c
extent = class_cases Extent (omega arith) (omega arith) (omega arith) (omega arith) (omega arith)

order_table :
    holds_up_to
      (λ d. holds_up_to (λ c. leb (last_offset c + class_size_bytes c) (first_offset d)) d)
      5
    ≡ true
unfolding holds_up_to
order_table = refl

-- A class ends before the next ones begin.
classes_in_order : (c d : ℕ) → c < d → d < 5 → last_offset c + class_size_bytes c ≤ first_offset d
classes_in_order c d h hd = leb→le _ _ (
    holds_up_to-at _ d
      (holds_up_to-at
        (λ d. holds_up_to (λ c. leb (last_offset c + class_size_bytes c) (first_offset d)) d) 5
        order_table d hd)
      c h)

-- All chunks of a class but its last.
abbrev pub initial_run : ℕ → List ℕ
initial_run c = offsets_run (first_offset c) (class_size_bytes c) (chunk_count_by_size_class c - 1)

All-weaken : {P Q : ℕ → Type 0} (xs : List ℕ) → ((x : ℕ) → P x → Q x) → All P xs → All Q xs
All-weaken [] f a = tt
All-weaken (x ∷ xs) f a = (f x a.0, All-weaken xs f a.1)

initial_links-Links :
    (n c : ℕ) (heads : ℕ → ℕ) (m : Bytes)
    → n ≤ 5
    → c < n
    → ((d : ℕ) → d < 5 → heads d ≡ first_offset d)
    → Links (initial_links n heads m) (first_offset c) (last_offset c) (initial_run c)
unfolding initial_links
initial_links-Links zero c heads m few h starts = absurd (omega arith)
initial_links-Links (suc n) c heads m few h starts = elim (ℕ_discrete c n) [
  | yes e ↦
      rw (e, starts n (omega arith))
        (link_chunks-Links (chunk_count_by_size_class n - 1) (class_size_bytes n) (first_offset n)
          (last_offset n) (initial_links n heads m) (extent n few).four (extent n few).end
          (extent n few).small)
  | no ne ↦ rw (starts n (omega arith)) (
      Links-frame (initial_links n heads m) _ (first_offset c) (last_offset c) (initial_run c)
        (All-weaken (initial_run c)
          (λ x b.
            link_chunks-outside (chunk_count_by_size_class n - 1) (class_size_bytes n)
              (first_offset n) (initial_links n heads m) x (extent n few).four
              (omega (arith, (extent n few).end, (extent n few).small)) (inl b))
          (offsets_run-below_end (class_size_bytes c) (chunk_count_by_size_class c - 1)
            (first_offset c) (first_offset n)
            (omega (
              arith,
              (extent c (omega arith)).end,
              (extent c (omega arith)).four,
              classes_in_order c n (omega arith) few,
            ))))
        (initial_links-Links n c heads m (omega arith) (omega arith) starts))
]

-- The run of a class with its last chunk is the whole class.
full_run :
    (c : ℕ)
    → c < 5
    → initial_run c ++ last_offset c ∷ []
      ≡ offsets_run (first_offset c) (class_size_bytes c) (chunk_count_by_size_class c)
full_run c hc =
    offsets_run-snoc (class_size_bytes c) (chunk_count_by_size_class c - 1) (first_offset c)
      (last_offset c) (extent c hc).end
    ∙ ap (offsets_run (first_offset c) (class_size_bytes c))
        {x = suc (chunk_count_by_size_class c - 1)} (omega (arith, (extent c hc).some_chunk))

full_run-All :
    (c : ℕ)
    → All
        (IsChunk c)
        (offsets_run (first_offset c) (class_size_bytes c) (chunk_count_by_size_class c))
full_run-All c =
    let e : chunk_offset c 0 ≡ first_offset c = omega arith in
    rw e at (All-offsets_run c (chunk_count_by_size_class c) 0 (omega arith))

-- After the initialization every class has all its chunks but the last in its free list, in order,
-- with the last chunk behind them.
pub initialize-FreeList :
    (s : SharedData) (c : ℕ)
    → c < 5
    → FreeList (initialize_chunk_usage_tracker (initialize_shared_data s)) c (initial_run c)
unfolding initialize_shared_data initialize_chunk_usage_tracker
initialize-FreeList s c hc = record {
  links =
      rw (heads_lem c hc, tails_lem c hc)
        (initial_links-Links 5 c heads s.pool (omega arith) hc heads_lem);
  chunks = rw (tails_lem c hc, full_run c hc) (full_run-All c);
  distinct =
      rw (tails_lem c hc, full_run c hc)
        (offsets_run-Distinct (class_size_bytes c) (chunk_count_by_size_class c) (first_offset c)
          (omega (arith, (extent c hc).four)));
  tracked = λ i hi. rw (
    tails_lem c hc,
    full_run c hc,
    offsets_run-member (class_size_bytes c) (chunk_count_by_size_class c) (first_offset c) i
        (chunk_offset c i) hi refl,
  );
}
  where
    heads : ℕ → ℕ
    heads = initial_heads 4 s.head

    heads_lem : (d : ℕ) → d < 5 → heads d ≡ first_offset d
    heads_lem = class_cases (λ d. heads d ≡ first_offset d) refl refl refl refl refl

    tails : ℕ → ℕ
    tails = update (initial_tails 4 heads s.tail) 4 (1024 * 21 - 1024)

    tails_lem : (d : ℕ) → d < 5 → tails d ≡ last_offset d
    tails_lem = class_cases (λ d. tails d ≡ last_offset d) refl refl refl refl refl
