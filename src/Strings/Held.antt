-- ===== src/Strings/Held.antt =====
-- user/lib/string.c: bytes that stand in the memory, and writes elsewhere.
use riscv_os.Prelude.{
  ℕ, ◌+◌, ◌≤◌, ◌<◌, ◌≡◌, ◌≢◌, ◌⊎◌, refl, inl, inr, List, [], ◌∷◌, ==_refl, ne→==_false, arith,
  length,
}
use riscv_os.Strings.{Bytes, put}

-- The bytes stand from `p` on.
abbrev pub Held : Bytes → ℕ → List ℕ → Type 0
Held m p [] = Unit {0}
Held m p (c ∷ s) = (m p ≡ c) × Held m (p + 1) s

-- An address in front of an object, or behind it
abbrev pub Outside : (a p n : ℕ) → Type 0
Outside a p n = (a < p) ⊎ (p + n ≤ a)

-- Two objects that have no byte in common
abbrev pub Apart : (p n q k : ℕ) → Type 0
Apart p n q k = (p + n ≤ q) ⊎ (q + k ≤ p)

pub put-here : (m : Bytes) (p v : ℕ) → put m p v p ≡ v
unfolding put
put-here m p v = rw (==_refl p) refl

pub put-ne : (m : Bytes) (p v a : ℕ) → a ≢ p → put m p v a ≡ m a
unfolding put
put-ne m p v a ne = rw (ne→==_false a p ne) refl

-- A write outside an object leaves it.
pub put-Held :
    (m : Bytes) (q v p : ℕ) (s : List ℕ)
    → Outside q p (length s)
    → Held m p s
    → Held (put m q v) p s
put-Held m q v p [] o h = h
put-Held m q v p (c ∷ s) (inl lt) (e, h) = (
  rw (put-ne m q v p (λ t. absurd (omega (arith, t, lt)))) e,
  put-Held m q v (p + 1) s (inl (omega (arith, lt))) h,
)
put-Held m q v p (c ∷ s) (inr le) (e, h) = (
  rw (put-ne m q v p (λ t. absurd (omega (arith, t, le)))) e,
  put-Held m q v (p + 1) s (inr (omega (arith, le))) h,
)
