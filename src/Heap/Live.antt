-- ===== src/Heap/Live.antt =====
-- The blocks in use of a heap: apart from one another, and changed by one block at a time.
use riscv_os.Heap.Taken.{allocate-cons, allocate-split, allocate-nil}
use riscv_os.Prelude.{
  ℕ, ◌+◌, ◌<◌, ◌≡◌, refl, sym, ap, ◌∙◌, Bool, true, false, ◌&&◌, ◌||◌, none, some, List, [], ◌∷◌,
  arith, leb, ◌==◌, if◌then◌else◌, Bool-cases, ne→==_false, ==→eq, ==_refl, inl, inr, ==_false→ne,
}
use riscv_os.Heap.{block_size}
use riscv_os.Heap.Spans.{Span, allocate, merge, release, live}

-- The list without the entry of `p`.
unfoldable pub without : ℕ → List (ℕ × ℕ) → List (ℕ × ℕ)
without p [] = []
without p ((q, size) ∷ l) = if q == p then l else (q, size) ∷ without p l

without-live :
    (p at : ℕ) (bs : List Span) → p < at + block_size → without p (live at bs) ≡ live at bs
unfolding without live
without-live p at [] h = refl
without-live p at ((have, true) ∷ bs) h = without-live p (at + block_size + have) bs (omega arith)
without-live p at ((have, false) ∷ bs) h = rw (ne→==_false (at + block_size) p (omega arith)) (
    ap (λ l. (at + block_size, have) ∷ l)
      (without-live p (at + block_size + have) bs (omega arith)))

live-merge :
    (at have : ℕ) (bs : List Span) → live at (merge have bs) ≡ live (at + block_size + have) bs
unfolding live merge
live-merge at have [] = refl
live-merge at have ((size, false) ∷ bs) = refl
live-merge at have ((size, true) ∷ bs) = ap (λ a. live a bs) (omega arith)

release-cons :
    (p at have : ℕ) (is_free : Bool) (bs bs' : List Span)
    → (p == at + block_size) ≡ false
    → release p at ((have, is_free) ∷ bs) ≡ some bs'
    → (rest : List Span) × (release p (at + block_size + have) bs ≡ some rest)
      × (bs' ≡ (have, is_free) ∷ rest)
unfolding release
release-cons p at have is_free bs bs' there e = ground arith

release-merge :
    (p at have : ℕ) (is_free : Bool) (bs bs' : List Span)
    → (p == at + block_size) ≡ true
    → release p at ((have, is_free) ∷ bs) ≡ some bs'
    → (p ≡ at + block_size) × (bs' ≡ merge have bs)
unfolding release
release-merge p at have is_free bs bs' here e = ground arith

release-here :
    (at have : ℕ) (is_free : Bool) (bs : List Span)
    → live (at + block_size + have) bs ≡ without (at + block_size) (live at ((have, is_free) ∷ bs))
unfolding live without
release-here at have true bs =
    sym (without-live (at + block_size) (at + block_size + have) bs (omega arith))
release-here at have false bs = rw (==_refl (at + block_size))

without-cons :
    (p at have : ℕ) (is_free : Bool) (bs bs' : List Span)
    → (p == at + block_size) ≡ false
    → live (at + block_size + have) bs' ≡ without p (live (at + block_size + have) bs)
    → live at ((have, is_free) ∷ bs') ≡ without p (live at ((have, is_free) ∷ bs))
unfolding live without
without-cons p at have true bs bs' e h = h
without-cons p at have false bs bs' e h =
    rw (ne→==_false (at + block_size) p (λ q. ==_false→ne p (at + block_size) e (sym q)))
      (ap (λ l. (at + block_size, have) ∷ l) h)

-- `release` takes the entry of `p` away, and no other; at a block that is free already it takes
-- none.
pub live-release :
    (p at : ℕ) (bs bs' : List Span)
    → release p at bs ≡ some bs'
    → live at bs' ≡ without p (live at bs)
unfolding release
live-release p at [] bs' e = cc
live-release p at ((have, is_free) ∷ bs) bs' e = elim (Bool-cases (p == at + block_size)) [
  | inl here ↦
      let (ep, eb) = release-merge p at have is_free bs bs' here e in
      rw (ep, eb) (live-merge at have bs ∙ release-here at have is_free bs)
  | inr there ↦
      let (rest, er, eb) = release-cons p at have is_free bs bs' there e in
      rw eb (
        without-cons p at have is_free bs rest there
          (live-release p (at + block_size + have) bs rest er))
]

-- An address is that of a block in use.
unfoldable pub has : ℕ → List (ℕ × ℕ) → Bool
has p [] = false
has p ((q, size) ∷ l) = p == q || has p l

pub has-lt : (p at : ℕ) (bs : List Span) → has p (live at bs) ≡ true → at < p
unfolding has live
has-lt p at [] h = cc
has-lt p at ((have, true) ∷ bs) h = omega (arith, has-lt p (at + block_size + have) bs h)
has-lt p at ((have, false) ∷ bs) h = elim (Bool-cases (p == at + block_size)) [
  | inl here ↦ omega (arith, ==→eq p (at + block_size) here)
  | inr there ↦ omega (arith, has-lt p (at + block_size + have) bs (rw there at h))
]

-- `release` finds every block in use.
pub release-total :
    (p at : ℕ) (bs : List Span)
    → has p (live at bs) ≡ true
    → (bs' : List Span) × (release p at bs ≡ some bs')
unfolding release has live
release-total p at [] h = cc
release-total p at ((have, true) ∷ bs) h = elim (Bool-cases (p == at + block_size)) [
  | inl here ↦ (merge have bs, rw here)
  | inr there ↦
      let (rest, er) = release-total p (at + block_size + have) bs h in
      ((have, true) ∷ rest, rw (there, er) refl)
]
release-total p at ((have, false) ∷ bs) h = elim (Bool-cases (p == at + block_size)) [
  | inl here ↦ (merge have bs, rw here)
  | inr there ↦
      let (rest, er) = release-total p (at + block_size + have) bs (rw there at h) in
      ((have, false) ∷ rest, rw (there, er) refl)
]

-- No free block has `size` bytes.
abbrev pub NoFit : ℕ → List Span → Type 0
NoFit size [] = Unit
NoFit size ((have, true) ∷ bs) = (have < size) × NoFit size bs
NoFit size ((have, false) ∷ bs) = NoFit size bs

-- `allocate` fails only if nothing fits.
pub allocate-NoFit : (size at : ℕ) (bs : List Span) → allocate size at bs ≡ none → NoFit size bs
unfolding allocate
allocate-NoFit size at [] e = tt
allocate-NoFit size at ((have, false) ∷ bs) e =
    ground (arith, allocate-NoFit size (at + block_size + have) bs)
allocate-NoFit size at ((have, true) ∷ bs) e =
    ground (arith, allocate-NoFit size (at + block_size + have) bs)

pub allocate-lt :
    (size at : ℕ) (bs : List Span) (p : ℕ) (bs' : List Span)
    → allocate size at bs ≡ some (p, bs')
    → at < p
allocate-lt size at [] p bs' e = absurd (allocate-nil size at e)
allocate-lt size at ((have, is_free) ∷ bs) p bs' e = elim (Bool-cases (is_free && leb size have)) [
  | inl fits ↦ omega (arith, (allocate-split size at have p is_free bs bs' fits e).0)
  | inr no_fit ↦
      let (rest, er, eb) = allocate-cons size at have p is_free bs bs' no_fit e in
      omega (arith, allocate-lt size (at + block_size + have) bs p rest er)
]
