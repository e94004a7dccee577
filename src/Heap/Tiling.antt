-- ===== src/Heap/Tiling.antt =====
-- The invariant of kernel/heap.c: from the first header on the blocks tile the heap.
use riscv_os.Prelude.{
  ℕ, ◌+◌, ◌≤◌, ◌<◌, ◌≡◌, ap, ◌≢◌, ◌∙◌, Bool, some, List, [], ◌∷◌, arith, length, ne→==_false,
  ==_refl,
}
use riscv_os.Heap.{Block, block, block_size, Cells, write}
use riscv_os.Heap.Spans.{Span}

-- Where the `next` pointer of a block leads that ends at `at`.
abbrev pub link : ℕ → List Span → ℕ
link at [] = 0
link at (b ∷ bs) = at

abbrev pub Tiles : Cells → ℕ → ℕ → List Span → Type 0
Tiles c stop at [] = at ≡ stop
Tiles c stop at ((have, is_free) ∷ bs) =
    (c at ≡ some (block have (link (at + block_size + have) bs) is_free))
    × Tiles c stop (at + block_size + have) bs

pub write_self : (c : Cells) (p : ℕ) (b : Block) → write c p b p ≡ some b
unfolding write
write_self c p b = rw (==_refl p)

pub write_ne : (c : Cells) {p q : ℕ} (b : Block) → q ≢ p → write c p b q ≡ c q
unfolding write
write_ne c {p} {q} b h = rw (ne→==_false q p h)

-- A write below the first header leaves the tiling alone.
pub Tiles-write :
    (c : Cells) (stop at p : ℕ) (b : Block) (bs : List Span)
    → p < at
    → Tiles c stop at bs
    → Tiles (write c p b) stop at bs
Tiles-write c stop at p b [] below t = t
Tiles-write c stop at p b ((have, is_free) ∷ bs) below t = (
  write_ne c b (omega arith) ∙ t.0,
  Tiles-write c stop (at + block_size + have) p b bs (omega arith) t.1,
)

-- Blocks behind a fresh header at the front.
pub Tiles-cons :
    (c : Cells) (stop at have next : ℕ) (is_free : Bool) (bs : List Span)
    → next ≡ link (at + block_size + have) bs
    → Tiles c stop (at + block_size + have) bs
    → Tiles (write c at (block have next is_free)) stop at ((have, is_free) ∷ bs)
Tiles-cons c stop at have next is_free bs e t = (
  write_self c at _ ∙ ap (λ n. some (block have n is_free)) e,
  Tiles-write c stop (at + block_size + have) at _ bs (omega arith) t,
)

-- Every block has a header of its own, so the heap's bytes bound their number.
pub length-le :
    (c : Cells) (stop at : ℕ) (bs : List Span) → Tiles c stop at bs → at + length bs ≤ stop
length-le c stop at [] t = omega arith
length-le c stop at ((have, is_free) ∷ bs) t =
    omega (arith, length-le c stop (at + block_size + have) bs t.1)
