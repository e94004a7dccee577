-- ===== src/UserHeap/Links.antt =====
-- user/lib/malloc.c: what a change of one header leaves.
use riscv_os.Prelude.{
  ℕ, ◌+◌, ◌≤◌, ◌<◌, ◌≡◌, ◌≢◌, inl, inr, List, ◌∷◌, ◌==◌, arith, Bool-cases, ne→==_false, ==_refl,
}
use riscv_os.UserHeap.{Block, UserHeap, write, relink}
use riscv_os.UserHeap.FreeList.{Span, Outside, link}

pub write_self : (b : ℕ → Block) (x : ℕ) (v : Block) → write b x v x ≡ v
unfolding write
write_self b x v = rw (==_refl x)

pub write_ne : (b : ℕ → Block) (x : ℕ) (v : Block) (q : ℕ) → q ≢ x → write b x v q ≡ b q
unfolding write
write_ne b x v q ne = rw (ne→==_false q x ne)

pub relink-link : (prev x : ℕ) (h : UserHeap) → link prev (relink prev x h) ≡ x
unfolding relink
relink-link prev x h = elim (Bool-cases (prev == 0)) [
  | inl e ↦ rw e
  | inr e ↦ rw (e, write_self h.block prev (record (h.block prev) { next = x }))
]

pub relink_size :
    (prev x : ℕ) (h : UserHeap) → ((relink prev x h).block prev).size ≡ (h.block prev).size
unfolding relink
relink_size prev x h = elim (Bool-cases (prev == 0)) [
  | inl e ↦ rw e
  | inr e ↦ rw (e, write_self h.block prev (record (h.block prev) { next = x }))
]

pub relink_first :
    (prev x : ℕ) (h : UserHeap) → prev ≢ 0 → (relink prev x h).free_list ≡ h.free_list
unfolding relink
relink_first prev x h ne = rw (ne→==_false prev 0 ne)

pub relink_other :
    (prev x : ℕ) (h : UserHeap) (q : ℕ) → q ≢ prev → (relink prev x h).block q ≡ h.block q
unfolding relink
relink_other prev x h q ne = elim (Bool-cases (prev == 0)) [
  | inl e ↦ rw e
  | inr e ↦ rw (e, write_ne h.block prev (record (h.block prev) { next = x }) q ne)
]

-- An address inside of a block is not outside of it.
pub inside_ne :
    (s : Span) (x y : ℕ) (l : List Span)
    → Outside x (s ∷ l)
    → s.at ≤ y
    → y < s.at + 16 + s.size
    → x ≢ y
inside_ne s x y l (inl h, hs) low high e = omega arith
inside_ne s x y l (inr h, hs) low high e = omega arith
