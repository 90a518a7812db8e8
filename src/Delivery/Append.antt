-- ===== src/Delivery/Append.antt =====
-- One more message behind those that wait: what `Publisher::try_publish_one` of src/publisher.cpp writes
-- is read back, and the chunk that it takes is none of those that wait.
use mathlib.Core.Path.{ap₂}
use mathlib.Core.List.{map-append}
use drive_bus.Prelude.{
  ℕ, zero, suc, ◌+◌, ◌%◌, ◌^◌, ◌<◌, ◌≡◌, inl, List, [], ◌∷◌, ◌++◌, true, false, ◌==◌, ==_iff, refl,
  sym, subst, length, arith, map, ◌∙◌, ap,
}
use drive_bus.Layout.{MessageDescriptor, word_mod, chunk_count_by_size_class, magic}
use drive_bus.Layout.Chunks.{chunk_offset, chunks_disjoint}
use drive_bus.Bytes.{Bytes, load_word, load_bytes, store_word, of_bytes}
use drive_bus.Bytes.Laws.{
  load_bytes-store_bytes, load_bytes-outside, load_word-store_word, load_word-outside,
}
use drive_bus.Shared.{SharedData}
use drive_bus.FreeList.Chain.{member, member-append, class_size_bytes-le-16}
use drive_bus.Publisher.Publish.{write_message}
use drive_bus.Sound.{Sound}
use drive_bus.Delivery.{Ready, AllReady}
use drive_bus.Delivery.Drop.{referenced-used}

-- The number that follows `n` messages from `seq` on.
abbrev pub seq_after : ℕ → ℕ → ℕ
seq_after zero seq = seq
seq_after (suc n) seq = seq_after n ((seq + 1) % word_mod)

pub seq_after-suc : (n seq : ℕ) → seq_after (suc n) seq ≡ (seq_after n seq + 1) % word_mod
seq_after-suc zero seq = refl
seq_after-suc (suc n) seq = seq_after-suc n ((seq + 1) % word_mod)

-- A message that is written is read back.
pub written-begins :
    (m : Bytes) (o seq : ℕ) (payload : List ℕ) → load_word (write_message m o seq payload) o ≡ magic
unfolding write_message load_word
written-begins m o seq payload =
    ap of_bytes (load_bytes-outside _ (o + 8) payload o 4 (inl (omega arith)))
    ∙ (load_word-outside (store_word m o magic) (o + 4) seq o (inl (omega arith))
        ∙ load_word-store_word m o magic (omega arith))

pub written-numbered :
    (m : Bytes) (o seq : ℕ) (payload : List ℕ)
    → seq < 2 ^ 32
    → load_word (write_message m o seq payload) (o + 4) ≡ seq
unfolding write_message load_word
written-numbered m o seq payload h =
    ap of_bytes (load_bytes-outside _ (o + 8) payload (o + 4) 4 (inl (omega arith)))
    ∙ load_word-store_word (store_word m o magic) (o + 4) seq h

pub written-payload :
    (m : Bytes) (o seq : ℕ) (payload : List ℕ)
    → load_bytes (write_message m o seq payload) (o + 8) (length payload) ≡ payload
unfolding write_message
written-payload m o seq payload = load_bytes-store_bytes _ (o + 8) payload

-- One more message behind those that are ready.
pub AllReady-snoc :
    (s : SharedData) (slot first seq : ℕ) (d : MessageDescriptor) (ds : List MessageDescriptor)
    → AllReady s slot first ds
    → member d.offset (map (λ e. e.offset) ds) ≡ false
    → seq_after (length ds) first ≡ seq
    → Ready s slot seq d
    → AllReady s slot first (ds ++ d ∷ [])
unfolding member
AllReady-snoc s slot first seq d [] rs out e r = (subst (λ n. Ready s slot n d) (sym e) r, refl, tt)
AllReady-snoc s slot first seq d (x ∷ ds) (r', fresh, rs) out e r = (
  r',
  rw
      (
        map-append {A = MessageDescriptor} {B = ℕ} (λ e. e.offset) ds (d ∷ []),
        member-append x.offset (map (λ e. e.offset) ds) (d.offset ∷ []),
        fresh,
      )
      (ground (arith, ==_iff d.offset x.offset, ==_iff x.offset d.offset)),
  AllReady-snoc s slot ((first + 1) % word_mod) seq d ds rs (ground arith) e r,
)

-- Chunks of one offset are one.
chunk_one :
    (i j c d : ℕ)
    → c < 5
    → d < 5
    → i < chunk_count_by_size_class c
    → j < chunk_count_by_size_class d
    → chunk_offset c i ≡ chunk_offset d j
    → (c ≡ d) × (i ≡ j)
chunk_one i j c d hc hd hi hj e =
    chunks_disjoint i j c d hc hd hi hj (omega (arith, class_size_bytes-le-16 d hd))
      (omega (arith, class_size_bytes-le-16 c hc))

-- The chunks of what is ready are in use.
pub member-free :
    (s : SharedData) (slot first c i : ℕ) (ds : List MessageDescriptor)
    → c < 5
    → i < chunk_count_by_size_class c
    → Sound s
    → s.is_in_use c i ≡ false
    → AllReady s slot first ds
    → member (chunk_offset c i) (map (λ e. e.offset) ds) ≡ false
unfolding member
member-free s slot first c i [] hc hi sound free rs = refl
member-free s slot first c i (d ∷ ds) hc hi sound free (r, fresh, rs) =
    rw (apart, member-free s slot ((first + 1) % word_mod) c i ds hc hi sound free rs) refl
  where
    used : s.is_in_use r.size_class r.number ≡ true
    used = referenced-used s r.size_class r.number slot r.small r.few sound r.referenced

    same : d.offset ≡ chunk_offset c i → s.is_in_use c i ≡ true
    same e =
        let (e1, e2) = chunk_one i r.number c r.size_class hc r.small hi r.few (sym e ∙ r.place) in
        ap₂ s.is_in_use e1 e2 ∙ used

    apart : (d.offset == chunk_offset c i) ≡ false
    apart = ground (arith, ==_iff d.offset (chunk_offset c i), same)
