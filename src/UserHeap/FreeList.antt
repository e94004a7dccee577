-- ===== src/UserHeap/FreeList.antt =====
-- user/lib/malloc.c: the linked list of free blocks, against a list of their addresses and sizes.
use riscv_os.Prelude.{
  ℕ, ◌+◌, ◌-◌, ◌^◌, ◌≤◌, ◌<◌, ◌≡◌, sym, ap, subst, ◌∙◌, ◌≢◌, ◌⊎◌, inl, inr, Option, none, some,
  List, [], ◌∷◌, leb, ◌==◌, if◌then◌else◌, ◌>>=◌, arith,
}
use riscv_os.UserHeap.{Block, UserHeap}

-- A free block
pub record Span : Type 0 where
  pub at : ℕ
  pub size : ℕ

-- The blocks linked from an address on.
abbrev pub Chain : (ℕ → Block) → ℕ → List Span → Type 0
Chain b a [] = a ≡ 0
Chain b a (s ∷ l) = (a ≡ s.at) × (s.at ≢ 0) × ((b s.at).size ≡ s.size) × Chain b (b s.at).next l

-- No header or byte of the blocks is at an address.
abbrev pub Outside : ℕ → List Span → Type 0
Outside x [] = Unit {0}
Outside x (s ∷ l) = ((x < s.at) ⊎ (s.at + 16 + s.size ≤ x)) × Outside x l

-- A block has nothing in common with those of a list.
abbrev pub Apart : Span → List Span → Type 0
Apart s [] = Unit {0}
Apart s (t ∷ l) = ((s.at + 16 + s.size ≤ t.at) ⊎ (t.at + 16 + t.size ≤ s.at)) × Apart s l

-- The blocks end below 2^63, and no two have anything in common.
abbrev pub Blocks : List Span → Type 0
Blocks [] = Unit {0}
Blocks (s ∷ l) = (s.at + 16 + s.size < 2 ^ 63) × Apart s l × Blocks l

-- What is left of a block and the blocks behind it when `size` bytes are taken from it.
abbrev pub rest_of : ℕ → Span → List Span → List Span
rest_of size s l =
    if leb (size + 24) s.size
    then record { at = s.at + 16 + size; size = s.size - size - 16 } ∷ l
    else l

-- The first block that is large enough, and the blocks without what is taken from it.
abbrev pub first_fit : ℕ → List Span → Option (ℕ × List Span)
first_fit size [] = none
first_fit size (s ∷ l) =
    if leb size s.size
    then some (s.at, rest_of size s l)
    else (first_fit size l >>= λ (p, l'). some (p, s ∷ l'))

pub Apart-Outside :
    (s : Span) (x : ℕ) (l : List Span) → s.at ≤ x → x < s.at + 16 + s.size → Apart s l → Outside x l
Apart-Outside s x [] low high h = tt
Apart-Outside s x (t ∷ l) low high (inl h, hs) =
    (inl (omega arith), Apart-Outside s x l low high hs)
Apart-Outside s x (t ∷ l) low high (inr h, hs) =
    (inr (omega arith), Apart-Outside s x l low high hs)

-- A chain is kept by a change of other addresses.
pub Chain-same :
    (b b' : ℕ → Block) (a : ℕ) (l : List Span)
    → ((x : ℕ) → (Outside x l → ⊥) → b' x ≡ b x)
    → Chain b a l
    → Chain b' a l
Chain-same b b' a [] h c = c
Chain-same b b' a (s ∷ l) h c =
    let same : b' s.at ≡ b s.at = h s.at (λ o. self o.0) in
    (
      c.0,
      c.1,
      ap (λ k. k.size) same ∙ c.2,
      subst (λ k. Chain b' k.next l) (sym same)
          (Chain-same b b' (b s.at).next l (λ x out. h x (λ o. out o.1)) c.3),
    )
  where
    self : (s.at < s.at) ⊎ (s.at + 16 + s.size ≤ s.at) → ⊥
    self (inl e) = omega arith
    self (inr e) = omega arith

-- Where the chain from `prev` on begins.
abbrev pub link : ℕ → UserHeap → ℕ
link prev h = if prev == 0 then h.free_list else (h.block prev).next

-- A change from `h` to `h'` that leads from `prev` to the blocks `l'`, and touches `prev` and the
-- blocks `l` at most.
pub record Linked (prev : ℕ) (h h' : UserHeap) (l l' : List Span) : Type 0 where
  pub chain : Chain h'.block (link prev h') l'
  pub size : (h'.block prev).size ≡ (h.block prev).size
  pub first : prev ≢ 0 → h'.free_list ≡ h.free_list
  pub others : (x : ℕ) → x ≢ prev → Outside x l → h'.block x ≡ h.block x
