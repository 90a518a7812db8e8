-- ===== src/Delivery/Frame.antt =====
-- What leaves the messages of a slot as they are.
use mathlib.Core.Path.{ap₂}
use drive_bus.Prelude.{
  ℕ, ◌+◌, ◌-◌, ◌%◌, ◌≤◌, ◌<◌, ◌≡◌, ◌≢◌, List, [], ◌∷◌, some, true, false, ==_iff, map, refl, ◌∙◌,
  arith, subst,
}
use drive_bus.Layout.{MessageDescriptor, word_mod, class_size_bytes, chunk_count_by_size_class}
use drive_bus.Layout.Chunks.{chunk_offset, chunk_number}
use drive_bus.Layout.Classes.{Fits, find_size_class-Fits}
use drive_bus.Mask.{test_bit}
use drive_bus.Shared.{SharedData}
use drive_bus.FreeList.Chain.{member, class_size_bytes-le-16}
use drive_bus.Sound.Frame.{load_bytes-same, load_word-same}
use drive_bus.Delivery.{message_at, Ready, AllReady}

-- The chunk of offset `o` that the slot references keeps its reference and its bytes.
pub record Keeping (s t : SharedData) (slot : ℕ) (o : ℕ) : Type 0 where
  pub bits :
      (c i : ℕ)
      → c < 5
      → i < chunk_count_by_size_class c
      → o ≡ chunk_offset c i
      → test_bit (s.chunk_reference_counts (chunk_number c i)) slot ≡ true
      → test_bit (t.chunk_reference_counts (chunk_number c i)) slot ≡ true
  pub bytes :
      (c i x : ℕ)
      → c < 5
      → i < chunk_count_by_size_class c
      → o ≡ chunk_offset c i
      → test_bit (s.chunk_reference_counts (chunk_number c i)) slot ≡ true
      → o ≤ x
      → x < o + class_size_bytes c
      → t.pool x ≡ s.pool x

-- All the chunks of descriptors keep theirs.
abbrev pub AllKeeping : SharedData → SharedData → ℕ → List MessageDescriptor → Type 0
AllKeeping s t slot [] = Unit {0}
AllKeeping s t slot (d ∷ ds) = Keeping s t slot d.offset × AllKeeping s t slot ds

pub every_chunk :
    (s t : SharedData) (slot : ℕ) (ds : List MessageDescriptor)
    → ((o : ℕ) → Keeping s t slot o)
    → AllKeeping s t slot ds
every_chunk s t slot [] h = tt
every_chunk s t slot (d ∷ ds) h = (h d.offset, every_chunk s t slot ds h)

-- All chunks but one keep theirs, and the descriptors do not name that one.
pub other_chunks :
    (s t : SharedData) (slot o : ℕ) (ds : List MessageDescriptor)
    → ((q : ℕ) → o ≢ q → Keeping s t slot q)
    → member o (map (λ e. e.offset) ds) ≡ false
    → AllKeeping s t slot ds
unfolding member
other_chunks s t slot o [] h out = tt
other_chunks s t slot o (d ∷ ds) h out =
    (h d.offset (ground (arith, ==_iff d.offset o)), other_chunks s t slot o ds h (ground arith))

-- The length of a described message stays in its chunk.
Ready-fits :
    (s : SharedData) (slot seq : ℕ) (d : MessageDescriptor) (r : Ready s slot seq d)
    → d.len ≤ class_size_bytes r.size_class
Ready-fits s slot seq d r =
    let f : Fits d.len (some r.size_class) =
      subst (Fits d.len) r.class (find_size_class-Fits d.len) in
    f.1

Ready-frame :
    (s t : SharedData) (slot seq : ℕ) (d : MessageDescriptor)
    → Keeping s t slot d.offset
    → Ready s slot seq d
    → Ready t slot seq d
Ready-frame s t slot seq d k r = record {
  size_class = r.size_class;
  number = r.number;
  small = r.small;
  few = r.few;
  class = r.class;
  place = r.place;
  header = r.header;
  begins =
      load_word-same s.pool t.pool d.offset (λ y lo hi. same y (omega arith) (omega (arith, wide)))
      ∙ r.begins;
  numbered =
      load_word-same s.pool t.pool (d.offset + 4)
        (λ y lo hi. same y (omega arith) (omega (arith, wide)))
      ∙ r.numbered;
  referenced = k.bits r.size_class r.number r.small r.few r.place r.referenced;
}
  where
    wide : 16 ≤ class_size_bytes r.size_class
    wide = class_size_bytes-le-16 r.size_class r.small

    same :
        (y : ℕ) → d.offset ≤ y → y < d.offset + class_size_bytes r.size_class → t.pool y ≡ s.pool y
    same y lo hi = k.bytes r.size_class r.number y r.small r.few r.place r.referenced lo hi

message_at-frame :
    (s t : SharedData) (slot seq : ℕ) (d : MessageDescriptor)
    → Keeping s t slot d.offset
    → Ready s slot seq d
    → message_at t.pool d ≡ message_at s.pool d
message_at-frame s t slot seq d k r =
    load_bytes-same s.pool t.pool (d.offset + 8) (d.len - 8) (λ y lo hi.
      k.bytes r.size_class r.number y r.small r.few r.place r.referenced (omega arith)
        (omega (arith, Ready-fits s slot seq d r)))

-- What is to be read stays ready.
pub AllReady-frame :
    (s t : SharedData) (slot seq : ℕ) (ds : List MessageDescriptor)
    → AllKeeping s t slot ds
    → AllReady s slot seq ds
    → AllReady t slot seq ds
AllReady-frame s t slot seq [] k r = tt
AllReady-frame s t slot seq (d ∷ ds) k (r, fresh, rs) = (
  Ready-frame s t slot seq d k.0 r,
  fresh,
  AllReady-frame s t slot ((seq + 1) % word_mod) ds k.1 rs,
)

-- And it is the same messages.
pub messages-frame :
    (s t : SharedData) (slot seq : ℕ) (ds : List MessageDescriptor)
    → AllKeeping s t slot ds
    → AllReady s slot seq ds
    → map (message_at t.pool) ds ≡ map (message_at s.pool) ds
messages-frame s t slot seq [] k r = refl
messages-frame s t slot seq (d ∷ ds) k (r, fresh, rs) =
    ap₂ ◌∷◌ (message_at-frame s t slot seq d k.0 r)
      (messages-frame s t slot ((seq + 1) % word_mod) ds k.1 rs)

-- Steps follow one another.
pub Keeping-trans :
    (s t u : SharedData) (slot o : ℕ) → Keeping s t slot o → Keeping t u slot o → Keeping s u slot o
Keeping-trans s t u slot o a b = record {
  bits = λ c i hc hi e h. b.bits c i hc hi e (a.bits c i hc hi e h);
  bytes = λ c i x hc hi e h lo hi'.
      b.bytes c i x hc hi e (a.bits c i hc hi e h) lo hi' ∙ a.bytes c i x hc hi e h lo hi';
}
