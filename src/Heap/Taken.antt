-- ===== src/Heap/Taken.antt =====
-- kernel/heap.c: the blocks in use after an allocation.
use riscv_os.Prelude.{
  ℕ, ◌+◌, ◌-◌, ◌≤◌, ◌≡◌, refl, ap, ◌≢◌, Bool, true, false, ◌&&◌, some, List, [], ◌∷◌, ◌++◌, arith,
  leb, Bool-cases, inl, inr, leb→le,
}
use riscv_os.Heap.{block_size, Cells}
use riscv_os.Heap.Spans.{Span, split, allocate, live}
use riscv_os.Heap.Tiling.{Tiles}

-- Blocks in address order, each behind a header of its own, none reaching past `stop`.
abbrev pub Apart : ℕ → ℕ → List (ℕ × ℕ) → Type 0
Apart at stop [] = at ≤ stop
Apart at stop ((p, size) ∷ l) = (at + block_size ≤ p) × Apart (p + size) stop l

pub Apart-mono :
    (at at' stop : ℕ) (l : List (ℕ × ℕ)) → at' ≤ at → Apart at stop l → Apart at' stop l
Apart-mono at at' stop [] h a = omega arith
Apart-mono at at' stop ((p, size) ∷ l) h a = (omega arith, a.1)

-- The blocks in use of a tiling do not overlap.
pub live-Apart :
    (c : Cells) (stop at : ℕ) (bs : List Span) → Tiles c stop at bs → Apart at stop (live at bs)
unfolding live
live-Apart c stop at [] t = omega arith
live-Apart c stop at ((have, true) ∷ bs) t =
    Apart-mono _ at stop (live (at + block_size + have) bs) (omega arith)
      (live-Apart c stop (at + block_size + have) bs t.1)
live-Apart c stop at ((have, false) ∷ bs) t =
    (omega arith, live-Apart c stop (at + block_size + have) bs t.1)

-- `after` is `before` and one more block at `p`, of at least `size` bytes.
pub record Grown (p size : ℕ) (before after : List (ℕ × ℕ)) : Type 0 where
  pub low : List (ℕ × ℕ)
  pub high : List (ℕ × ℕ)
  pub got : ℕ
  pub enough : size ≤ got
  pub old : before ≡ low ++ high
  pub new : after ≡ low ++ (p, got) ∷ high

pub Grown-cons :
    (b : ℕ × ℕ) {p size : ℕ} {before after : List (ℕ × ℕ)}
    → Grown p size before after
    → Grown p size (b ∷ before) (b ∷ after)
Grown-cons b g = record {
  low = b ∷ g.low;
  high = g.high;
  got = g.got;
  enough = g.enough;
  old = ap (λ l. b ∷ l) g.old;
  new = ap (λ l. b ∷ l) g.new;
}

pub split-Grown :
    (size at have : ℕ) (bs : List Span)
    → size ≤ have
    → Grown (at + block_size) size (live at ((have, true) ∷ bs)) (live at (split size have bs))
unfolding split live
split-Grown size at have bs fits = elim (Bool-cases (leb (size + block_size + 8) have)) [
  | inl e ↦
      let room = leb→le (size + block_size + 8) have e in
      rw e (record {
        low = [];
        high = live (at + block_size + have) bs;
        got = size;
        enough = omega arith;
        old = refl;
        new =
            ap (λ a. (at + block_size, size) ∷ live a bs)
              (let ea : at + block_size + size + block_size + (have - size - block_size)
                    ≡ at + block_size + have =
                  omega arith in
                ea);
      })
  | inr e ↦ rw e (record {
    low = [];
    high = live (at + block_size + have) bs;
    got = have;
    enough = fits;
    old = refl;
    new = refl;
  })
]

pub allocate-cons :
    (size at have p : ℕ) (is_free : Bool) (bs bs' : List Span)
    → (is_free && leb size have) ≡ false
    → allocate size at ((have, is_free) ∷ bs) ≡ some (p, bs')
    → (rest : List Span) × (allocate size (at + block_size + have) bs ≡ some (p, rest))
      × (bs' ≡ (have, is_free) ∷ rest)
unfolding allocate
allocate-cons size at have p is_free bs bs' no_fit e = ground arith

pub allocate-split :
    (size at have p : ℕ) (is_free : Bool) (bs bs' : List Span)
    → (is_free && leb size have) ≡ true
    → allocate size at ((have, is_free) ∷ bs) ≡ some (p, bs')
    → (p ≡ at + block_size) × (bs' ≡ split size have bs)
unfolding allocate
allocate-split size at have p is_free bs bs' fits e = ground arith

pub allocate-nil : (size at : ℕ) {r : ℕ × List Span} → allocate size at [] ≢ some r
unfolding allocate
allocate-nil size at e = cc

-- A block that `allocate` finds was in use by nobody.
pub allocate-Grown :
    (size at : ℕ) (bs : List Span) (p : ℕ) (bs' : List Span)
    → allocate size at bs ≡ some (p, bs')
    → Grown p size (live at bs) (live at bs')
unfolding live
allocate-Grown size at [] p bs' e = absurd (allocate-nil size at e)
allocate-Grown size at ((have, false) ∷ bs) p bs' e =
    let (rest, er, eb) = allocate-cons size at have p false bs bs' refl e in
    rw eb (Grown-cons _ (allocate-Grown size (at + block_size + have) bs p rest er))
allocate-Grown size at ((have, true) ∷ bs) p bs' e = elim (Bool-cases (leb size have)) [
  | inl fits ↦
      let (ep, eb) = allocate-split size at have p true bs bs' fits e in
      rw (ep, eb) (split-Grown size at have bs (leb→le size have fits))
  | inr no_fit ↦
      let (rest, er, eb) = allocate-cons size at have p true bs bs' no_fit e in
      rw eb (allocate-Grown size (at + block_size + have) bs p rest er)
]
