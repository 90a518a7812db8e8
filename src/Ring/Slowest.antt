-- ===== src/Ring/Slowest.antt =====
-- The backpressure test is exact: it blocks when there is no subscriber, or one has the ring full.
use native.Mathlib.Decide.{dec_le}
use drive_bus.Prelude.{
  subst, ℕ, zero, suc, ◌+◌, ◌-◌, ◌%◌, ◌≤◌, ◌<◌, ◌≡◌, ◌≢◌, ◌⊎◌, ◌↔◌, inl, inr, false, min, arith,
  refl, ℕ_discrete, dec_lt, ap,
}
use drive_bus.Layout.{invalid_index}
use drive_bus.Shared.{SharedData}
use drive_bus.Ring.{slowest_of, scan, scan_one, find_slowest_read_index, is_blocked}

-- A read index is that of an unused slot, or lies in the ring.
abbrev pub InRing : ℕ → Type 0
InRing i = (i ≡ invalid_index) ⊎ (i < 16)

-- The indices of the shared data lie in the ring.
pub record IndicesValid (s : SharedData) : Type 0 where
  pub write : s.descriptor_write_index < 16
  pub reads : (k : ℕ) → k < 16 → InRing (s.descriptor_read_indices k)

-- How many descriptors lie between a read index and the write index.
abbrev pub pending_count : ℕ → ℕ → ℕ
pending_count rd wr = (wr + 16 - rd) % 16

-- A minimum over the first `n` slots is that of no slot, or is found in one of them.
abbrev Found : (ℕ → ℕ) → (ℕ → Type 0) → ℕ → ℕ → Type 0
Found reads P n x = (x ≡ invalid_index) ⊎ ((k : ℕ) × (k < n) × (reads k ≡ x) × P x × (x < 16))

Found-suc : (reads : ℕ → ℕ) (P : ℕ → Type 0) (n x : ℕ) → Found reads P n x → Found reads P (suc n) x
Found-suc reads P n x (inl e) = inl e
Found-suc reads P n x (inr (k, hk, e, p, lt)) = inr (k, omega arith, e, p, lt)

Found-min :
    (reads : ℕ → ℕ) (P : ℕ → Type 0) (n x : ℕ)
    → P (reads n)
    → reads n < 16
    → Found reads P n x
    → Found reads P (suc n) (min x (reads n))
Found-min reads P n x p lt f = elim (dec_lt x (reads n)) [
  | yes h ↦ let e : min x (reads n) ≡ x = omega arith in rw e (Found-suc reads P n x f)
  | no h ↦
      let e : min x (reads n) ≡ reads n = omega arith in rw e (inr (n, omega arith, refl, p, lt))
]

-- What the scan of the first `n` slots has found.
record Scanned (reads : ℕ → ℕ) (wr n before after : ℕ) : Type 0 where
  before_least : (k : ℕ) → k < n → reads k ≢ invalid_index → wr < reads k → before ≤ reads k
  after_least : (k : ℕ) → k < n → reads k ≢ invalid_index → reads k ≤ wr → after ≤ reads k
  before_found : Found reads (λ x. wr < x) n before
  after_found : Found reads (λ x. x ≤ wr) n after

abbrev ScannedPair : (ℕ → ℕ) → ℕ → ℕ → ℕ × ℕ → Type 0
ScannedPair reads wr n (before, after) = Scanned reads wr n before after

scan_one-Scanned :
    (reads : ℕ → ℕ) (wr n before after : ℕ)
    → wr < 16
    → InRing (reads n)
    → Scanned reads wr n before after
    → ScannedPair reads wr (suc n) (scan_one wr (reads n) (before, after))
scan_one-Scanned reads wr n before after hw h sc = record {
  before_least = λ k hk ne lt. elim (ℕ_discrete k n) [
    | yes e ↦ ground (arith, ap reads e)
    | no other ↦ ground (arith, sc.before_least k)
  ];
  after_least = λ k hk ne le. elim (ℕ_discrete k n) [
    | yes e ↦ ground (arith, ap reads e)
    | no other ↦ ground (arith, sc.after_least k)
  ];
  before_found = elim (ℕ_discrete (reads n) invalid_index) [
    | yes e ↦
        subst (Found reads Beyond (suc n)) (kept_before (inl e))
          (Found-suc reads Beyond n before sc.before_found)
    | no ne ↦ elim (dec_le (reads n) wr) [
      | yes le ↦
          subst (Found reads Beyond (suc n)) (kept_before (inr le))
            (Found-suc reads Beyond n before sc.before_found)
      | no gt ↦
          subst (Found reads Beyond (suc n)) (ground arith)
            (Found-min reads Beyond n before (omega arith) (omega arith) sc.before_found)
    ]
  ];
  after_found = elim (ℕ_discrete (reads n) invalid_index) [
    | yes e ↦
        subst (Found reads Upto (suc n)) (kept_after (inl e))
          (Found-suc reads Upto n after sc.after_found)
    | no ne ↦ elim (dec_le (reads n) wr) [
      | yes le ↦
          subst (Found reads Upto (suc n)) (ground arith)
            (Found-min reads Upto n after (omega arith) (omega arith) sc.after_found)
      | no gt ↦
          subst (Found reads Upto (suc n)) (kept_after (inr (omega arith)))
            (Found-suc reads Upto n after sc.after_found)
    ]
  ];
}
  where
    Beyond : ℕ → Type 0
    Beyond x = wr < x

    Upto : ℕ → Type 0
    Upto x = x ≤ wr

    kept_before :
        (reads n ≡ invalid_index) ⊎ (reads n ≤ wr)
        → before ≡ (scan_one wr (reads n) (before, after)).0
    kept_before c = ground arith

    kept_after :
        (reads n ≡ invalid_index) ⊎ (wr < reads n)
        → after ≡ (scan_one wr (reads n) (before, after)).1
    kept_after c = ground arith

scan-Scanned :
    (reads : ℕ → ℕ) (wr n : ℕ)
    → wr < 16
    → ((k : ℕ) → k < n → InRing (reads k))
    → ScannedPair reads wr n (scan reads wr n)
unfolding scan
scan-Scanned reads wr zero hw h = record {
  before_least = λ k hk. absurd (omega arith);
  after_least = λ k hk. absurd (omega arith);
  before_found = inl refl;
  after_found = inl refl;
}
scan-Scanned reads wr (suc n) hw h =
    scan_one-Scanned reads wr n (scan reads wr n).0 (scan reads wr n).1 hw (h n (omega arith))
      (scan-Scanned reads wr n hw (λ k hk. h k (omega arith)))

module _ (reads : ℕ → ℕ) (wr before after : ℕ) (hw : wr < 16)
    (valid : (k : ℕ) → k < 16 → InRing (reads k)) (sc : Scanned reads wr 16 before after) where
  -- Some slot is in use.
  abbrev Active : Type 0
  Active = (k : ℕ) × (k < 16) × (reads k ≢ invalid_index)

  -- Every slot in use has room for one more descriptor.
  abbrev Room : Type 0
  Room = (k : ℕ) → k < 16 → reads k ≢ invalid_index → pending_count (reads k) wr < 15

  some_active :
      Found reads (λ x. wr < x) 16 before
      → Found reads (λ x. x ≤ wr) 16 after
      → is_blocked (slowest_of (before, after)) wr ≡ false
      → Active
  unfolding is_blocked
  some_active (inl e) (inl f) h = absurd (ground arith)
  some_active (inl e) (inr (k, hk, f, le, lt)) h = (k, hk, omega arith)
  some_active (inr (k, hk, e, gt, lt)) f h = (k, hk, omega arith)

  all_room : is_blocked (slowest_of (before, after)) wr ≡ false → Room
  unfolding is_blocked
  all_room h k hk ne =
      ground
        (arith, valid k hk, sc.before_least k, sc.after_least k, sc.before_found, sc.after_found)

  not_blocked :
      Found reads (λ x. wr < x) 16 before
      → Found reads (λ x. x ≤ wr) 16 after
      → Active
      → Room
      → is_blocked (slowest_of (before, after)) wr ≡ false
  unfolding is_blocked
  not_blocked (inl e) (inl f) (k, hk, ne) room =
      absurd (ground (arith, valid k hk, sc.before_least k, sc.after_least k))
  not_blocked (inl e) (inr (k, hk, f, le, lt)) a room = ground (arith, room k hk)
  not_blocked (inr (k, hk, e, gt, lt)) f a room = ground (arith, room k hk)

-- With the indices in the ring, the test for room passes exactly when some slot is in use and every
-- slot in use has fewer than 15 descriptors to read.
pub is_blocked_iff :
    (s : SharedData)
    → IndicesValid s
    → (is_blocked (find_slowest_read_index s) s.descriptor_write_index ≡ false) ↔ (
        ((k : ℕ) × (k < 16) × (s.descriptor_read_indices k ≢ invalid_index))
        × ((k : ℕ)
            → k < 16
            → s.descriptor_read_indices k ≢ invalid_index
            → pending_count (s.descriptor_read_indices k) s.descriptor_write_index < 15))
unfolding find_slowest_read_index
is_blocked_iff s v = (
  λ h. (
    some_active reads wr before after v.write v.reads sc sc.before_found sc.after_found h,
    all_room reads wr before after v.write v.reads sc h,
  ),
  λ h. not_blocked reads wr before after v.write v.reads sc sc.before_found sc.after_found h.0 h.1,
)
  where
    reads : ℕ → ℕ
    reads = s.descriptor_read_indices

    wr : ℕ
    wr = s.descriptor_write_index

    before : ℕ
    before = (scan reads wr 16).0

    after : ℕ
    after = (scan reads wr 16).1

    sc : Scanned reads wr 16 before after
    sc = scan-Scanned reads wr 16 v.write v.reads
