-- ===== src/UserHeap/Fit.antt =====
-- user/lib/malloc.c: taking the first block that is large enough keeps the blocks apart.
use riscv_os.Prelude.{
  ℕ, ◌+◌, ◌-◌, ◌≤◌, ◌⊎◌, inl, inr, Option, none, some, List, [], ◌∷◌, leb, ◌>>=◌, arith, Bool-cases,
  leb→le,
}
use riscv_os.UserHeap.FreeList.{Span, Apart, Blocks, rest_of, first_fit}

Apart-part :
    (s t : Span) (l : List Span)
    → s.at ≤ t.at
    → t.at + 16 + t.size ≤ s.at + 16 + s.size
    → Apart s l
    → Apart t l
Apart-part s t [] low high h = tt
Apart-part s t (u ∷ l) low high (inl h, hs) = (inl (omega arith), Apart-part s t l low high hs)
Apart-part s t (u ∷ l) low high (inr h, hs) = (inr (omega arith), Apart-part s t l low high hs)

-- The block that is handed out
abbrev pub taken : ℕ → ℕ → Span
taken p size = record { at = p; size = size }

-- What is taken, and the blocks that are left, have nothing in common, nor with anything that had
-- nothing in common with the blocks before.
abbrev pub Taken : ℕ → List Span → Option (ℕ × List Span) → Type 0
Taken size l none = Unit {0}
Taken size l (some (p, l')) =
    Blocks l' × Apart (taken p size) l' × ((t : Span) → Apart t l → Apart t (taken p size ∷ l'))

fit-Taken :
    (size : ℕ) (s : Span) (l : List Span)
    → size ≤ s.size
    → Blocks (s ∷ l)
    → Taken size (s ∷ l) (some (s.at, rest_of size s l))
fit-Taken size s l fits b = elim (Bool-cases (leb (size + 24) s.size)) [
  | inl e ↦
      let room = leb→le (size + 24) s.size e in
      let rest : Span = record { at = s.at + 16 + size; size = s.size - size - 16 } in
      rw e (
        (omega arith, Apart-part s rest l (omega arith) (omega arith) b.1, b.2),
        (inl (omega arith), Apart-part s (taken s.at size) l (omega arith) (omega arith) b.1),
        λ t h. (taken_apart t h.0, (rest_apart room t h.0, h.1)),
      )
  | inr e ↦ rw e (
    b.2,
    Apart-part s (taken s.at size) l (omega arith) (omega arith) b.1,
    λ t h. (taken_apart t h.0, h.1),
  )
]
  where
    taken_apart :
        (t : Span)
        → (t.at + 16 + t.size ≤ s.at) ⊎ (s.at + 16 + s.size ≤ t.at)
        → (t.at + 16 + t.size ≤ s.at) ⊎ (s.at + 16 + size ≤ t.at)
    taken_apart t (inl h) = inl h
    taken_apart t (inr h) = inr (omega arith)

    rest_apart :
        size + 24 ≤ s.size
        → (t : Span) → (t.at + 16 + t.size ≤ s.at) ⊎ (s.at + 16 + s.size ≤ t.at)
        → (t.at + 16 + t.size ≤ s.at + 16 + size)
          ⊎ (s.at + 16 + size + 16 + (s.size - size - 16) ≤ t.at)
    rest_apart room t (inl h) = inl (omega arith)
    rest_apart room t (inr h) = inr (omega arith)

-- Apart from one another, the other way round
flip : (s t : Span) → Apart s (t ∷ []) → Apart t (s ∷ [])
flip s t (inl h, u) = (inr h, tt)
flip s t (inr h, u) = (inl h, tt)

more-Taken :
    (size : ℕ) (s : Span) (l : List Span) (r : Option (ℕ × List Span))
    → Blocks (s ∷ l)
    → Taken size l r
    → Taken size (s ∷ l) (r >>= λ (p, l'). some (p, s ∷ l'))
more-Taken size s l none b h = tt
more-Taken size s l (some (p, l')) b h =
    let mine = h.2 s b.1 in
    (
      (b.0, mine.1, h.0),
      ((flip s (taken p size) (mine.0, tt)).0, h.1),
      λ t ht. let theirs = h.2 t ht.1 in (theirs.0, (ht.0, theirs.1)),
    )

pub first_fit-Taken : (size : ℕ) (l : List Span) → Blocks l → Taken size l (first_fit size l)
first_fit-Taken size [] b = tt
first_fit-Taken size (s ∷ l) b = elim (Bool-cases (leb size s.size)) [
  | inl e ↦ rw e (fit-Taken size s l (leb→le size s.size e) b)
  | inr e ↦ rw e (more-Taken size s l (first_fit size l) b (first_fit-Taken size l b.2))
]
