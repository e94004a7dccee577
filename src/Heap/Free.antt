-- ===== src/Heap/Free.antt =====
-- kernel/heap.c: `free` on a tiled heap does what `release` says.
use mathlib.Core.Option
use riscv_os.Prelude.{
  u64, ℕ, ◌+◌, ◌-◌, ◌^◌, ◌<◌, ◌≡◌, refl, sym, ap, subst, ◌≢◌, ◌∙◌, Bool, true, false, Option, none,
  some, List, [], ◌∷◌, arith, ◌==◌, Bool-cases, ne→==_false, ==→eq, inl, inr,
}
use riscv_os.Heap.{Block, block, block_size, Cells, write, Run, ok, coalesce, free_block}
use riscv_os.Heap.Spans.{Span, merge, release}
use riscv_os.Heap.Tiling.{link, Tiles, write_ne, Tiles-write, Tiles-cons, length-le}

-- What `free_block` does on a heap that the blocks tile, for the outcome of `release`.
abbrev pub Released : ℕ → ℕ → Cells → Option (List Span) → Run Cells → Type 0
Released stop at c none r = Unit
Released stop at c (some bs) r =
    (c' : Cells) × (r ≡ ok c') × Tiles c' stop at bs × ((q : ℕ) → q < at → c' q ≡ c q)

Released-cons :
    (c : Cells) (stop at have : ℕ) (is_free : Bool) (bs : List Span) (r : Run Cells)
    → Tiles c stop at ((have, is_free) ∷ bs)
    → (o : Option (List Span))
    → ((bs' : List Span)
        → o ≡ some bs'
        → link (at + block_size + have) bs' ≡ link (at + block_size + have) bs)
    → Released stop (at + block_size + have) c o r
    → Released stop at c (Option.map (λ bs'. (have, is_free) ∷ bs') o) r
Released-cons c stop at have is_free bs r t none same h = tt
Released-cons c stop at have is_free bs r t (some bs') same (c', er, t', frame) = (
  c',
  er,
  (frame at (omega arith) ∙ t.0 ∙ ap (λ n. some (block have n is_free)) (sym (same bs' refl)), t'),
  λ q below. frame q (omega arith),
)

link-merge : (next have : ℕ) (bs : List Span) → link next (merge have bs) ≡ next
unfolding merge
link-merge next have [] = refl
link-merge next have ((size, true) ∷ bs) = refl
link-merge next have ((size, false) ∷ bs) = refl

pub link-release :
    (next p at : ℕ) (bs bs' : List Span) → release p at bs ≡ some bs' → link next bs' ≡ link next bs
unfolding release
link-release next p at [] bs' e = cc
link-release next p at ((have, is_free) ∷ bs) bs' e = grind (arith, link-merge)

-- The coalescing step at a block whose header has just been written.
coalesce-Tiles :
    (c : Cells) (stop at have : ℕ) (bs : List Span)
    → at ≢ 0
    → stop < 2 ^ 64
    → Tiles c stop (at + block_size + have) bs
    → Released stop at c (some (merge have bs)) (
        coalesce at
          (block have (link (at + block_size + have) bs) true)
          (write c at (block have (link (at + block_size + have) bs) true)))
unfolding coalesce merge
coalesce-Tiles c stop at have [] ne small t =
    (_, refl, Tiles-cons c stop at have _ true [] refl t, λ q below. write_ne c _ (omega arith))
coalesce-Tiles c stop at have ((size, false) ∷ bs) ne small t =
    let b = block have (at + block_size + have) true in
    rw
      (
        ne→==_false (at + block_size + have) 0 (omega arith),
        write_ne c {p = at} {q = at + block_size + have} b (omega arith) ∙ t.0,
      )
      (
        write c at b,
        refl,
        Tiles-cons c stop at have _ true ((size, false) ∷ bs) refl t,
        λ q below. write_ne c _ (omega arith),
      )
coalesce-Tiles c stop at have ((size, true) ∷ bs) ne small t =
    let b = block have (at + block_size + have) true in
    let bound = length-le c stop (at + block_size + have + block_size + size) bs t.1 in
    let eu : u64 (have + (block_size + size)) ≡ have + (block_size + size) = omega arith in
    let ea : at + block_size + have + block_size + size
        ≡ at + block_size + (have + (block_size + size)) =
      omega arith in
    rw
      (
        ne→==_false (at + block_size + have) 0 (omega arith),
        write_ne c {p = at} {q = at + block_size + have} b (omega arith) ∙ t.0,
        eu,
      )
      (
        write (write c at b) at (
            block (have + (block_size + size))
              (link (at + block_size + have + block_size + size) bs) true),
        refl,
        Tiles-cons (write c at b) stop at _ _ true bs (ap (λ a. link a bs) ea) (
            subst (λ a. Tiles (write c at b) stop a bs) ea
              (Tiles-write c stop _ at b bs (omega arith) t.1)),
        λ q below. write_ne (write c at b) _ (omega arith) ∙ write_ne c b (omega arith),
      )

free_block-coalesce :
    (c : Cells) (p : ℕ) {b : Block}
    → c p ≡ some b
    → free_block p c ≡ coalesce p (block b.size b.next true) (write c p (block b.size b.next true))
unfolding free_block
free_block-coalesce c p e = rw (e, free_block)

pub free_block-Released :
    (p at stop : ℕ) (c : Cells) (bs : List Span)
    → at ≢ 0
    → stop < 2 ^ 64
    → Tiles c stop at bs
    → Released stop at c (release p at bs) (free_block (p - block_size) c)
unfolding release
free_block-Released p at stop c [] ne small t = tt
free_block-Released p at stop c ((have, is_free) ∷ bs) ne small t =
    elim (Bool-cases (p == at + block_size)) [
      | inl e ↦
          let ep : p - block_size ≡ at = omega (arith, ==→eq p (at + block_size) e) in
          rw (e, ep, free_block-coalesce c at t.0) (coalesce-Tiles c stop at have bs ne small t.1)
      | inr e ↦ rw e (
          Released-cons c stop at have is_free bs _ t (release p (at + block_size + have) bs)
            (link-release _ p _ bs)
            (free_block-Released p (at + block_size + have) stop c bs (omega arith) small t.1))
    ]
