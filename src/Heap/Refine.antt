-- ===== src/Heap/Refine.antt =====
-- kernel/heap.c: `malloc` and `free` on a tiled heap do what `allocate` and `release` say.
use mathlib.Core.Option
use riscv_os.Prelude.{
  u64, ℕ, zero, suc, ◌+◌, ◌-◌, ◌^◌, ◌≤◌, ◌<◌, ◌≡◌, refl, sym, ap, subst, ◌≢◌, ◌∙◌, Bool, true,
  false, Option, none, some, List, [], ◌∷◌, arith, leb, length, Bool-cases, ne→==_false, inl, inr,
  leb→le,
}
use riscv_os.Heap.{Block, block, block_size, Cells, write, Run, ok, take_block, malloc_loop}
use riscv_os.Heap.Spans.{Span, split, allocate}
use riscv_os.Heap.Tiling.{link, Tiles, Tiles-cons, length-le}

take_block-Tiles :
    (c : Cells) (stop at size have : ℕ) (bs : List Span)
    → stop + 8 < 2 ^ 64
    → size ≤ have
    → Tiles c stop at ((have, true) ∷ bs)
    → (b : Block) → b ≡ block have (link (at + block_size + have) bs) true
    → ((take_block size at b c).0 ≡ at + block_size)
      × Tiles (take_block size at b c).1 stop at (split size have bs)
unfolding take_block split
take_block-Tiles c stop at size have bs small fits t b eb =
    let bound = length-le c stop (at + block_size + have) bs t.1 in
    let eu : u64 (size + block_size + 8) ≡ size + block_size + 8 = omega arith in
    rw (eb, eu)
      (elim (Bool-cases (leb (size + block_size + 8) have)) [
        | inl e ↦
            let room = leb→le (size + block_size + 8) have e in
            let ea : at + block_size + have
                ≡ at + block_size + size + block_size + (have - size - block_size) =
              omega arith in
            rw e (
              refl,
              Tiles-cons _ stop at size _ false ((have - size - block_size, true) ∷ bs) refl (
                  Tiles-cons c stop (at + block_size + size) _ _ true bs (ap (λ a. link a bs) ea)
                    (subst (λ a. Tiles c stop a bs) ea t.1)),
            )
        | inr e ↦ rw e (refl, Tiles-cons c stop at have _ false bs refl t.1)
      ])

-- What `malloc` does on a heap that the blocks tile, for the outcome of `allocate`.
abbrev pub Allocated : ℕ → ℕ → Cells → Option (ℕ × List Span) → Run (ℕ × Cells) → Type 0
Allocated stop at c none r = r ≡ ok (0, c)
Allocated stop at c (some (p, bs)) r =
    (c' : Cells) × (r ≡ ok (p, c')) × Tiles c' stop at bs × ((q : ℕ) → q < at → c' q ≡ c q)

Allocated-cons :
    (c : Cells) (stop at have : ℕ) (is_free : Bool) (bs : List Span) (r : Run (ℕ × Cells))
    → Tiles c stop at ((have, is_free) ∷ bs)
    → (o : Option (ℕ × List Span))
    → ((p : ℕ) (bs' : List Span)
        → o ≡ some (p, bs')
        → link (at + block_size + have) bs' ≡ link (at + block_size + have) bs)
    → Allocated stop (at + block_size + have) c o r
    → Allocated stop at c (Option.map (λ (p, bs'). (p, (have, is_free) ∷ bs')) o) r
Allocated-cons c stop at have is_free bs r t none same h = h
Allocated-cons c stop at have is_free bs r t (some (p, bs')) same (c', er, t', frame) = (
  c',
  er,
  (
    frame at (omega arith) ∙ t.0 ∙ ap (λ n. some (block have n is_free)) (sym (same p bs' refl)),
    t',
  ),
  λ q below. frame q (omega arith),
)

link-split : (next size have : ℕ) (bs : List Span) → link next (split size have bs) ≡ next
unfolding split
link-split next size have bs = ground arith

-- `allocate` gives back a list that begins where the first one does.
pub link-allocate :
    (next size at : ℕ) (bs : List Span) (p : ℕ) (bs' : List Span)
    → allocate size at bs ≡ some (p, bs')
    → link next bs' ≡ link next bs
unfolding allocate
link-allocate next size at [] p bs' e = cc
link-allocate next size at ((have, is_free) ∷ bs) p bs' e = grind (arith, link-split)

take_block-frame :
    (c : Cells) (at size : ℕ) (b : Block) (q : ℕ) → q < at → (take_block size at b c).1 q ≡ c q
unfolding take_block write
take_block-frame c at size b q below = ground arith

pub malloc_loop-Allocated :
    (fuel size at stop : ℕ) (c : Cells) (bs : List Span)
    → at ≢ 0
    → stop + 8 < 2 ^ 64
    → length bs < fuel
    → Tiles c stop at bs
    → Allocated stop at c (allocate size at bs) (malloc_loop fuel size (link at bs) c)
unfolding malloc_loop allocate
malloc_loop-Allocated zero size at stop c bs ne small enough t = absurd (omega arith)
malloc_loop-Allocated (suc fuel) size at stop c [] ne small enough t = refl
malloc_loop-Allocated (suc fuel) size at stop c ((have, false) ∷ bs) ne small enough t =
    rw (ne→==_false at 0 ne, t.0, malloc_loop)
      (Allocated-cons c stop at have false bs _ t (allocate size (at + block_size + have) bs)
        (link-allocate _ size _ bs)
        (malloc_loop-Allocated fuel size (at + block_size + have) stop c bs (omega arith) small
          (omega arith) t.1))
malloc_loop-Allocated (suc fuel) size at stop c ((have, true) ∷ bs) ne small enough t =
    rw (ne→==_false at 0 ne, t.0, malloc_loop)
      (elim (Bool-cases (leb size have)) [
        | inl e ↦
            let b = block have (link (at + block_size + have) bs) true in
            let (ep, tiles) =
              take_block-Tiles c stop at size have bs small (leb→le size have e) t b refl in
            rw e (
              (take_block size at b c).1,
              ap (λ p. ok (p, (take_block size at b c).1)) ep,
              tiles,
              take_block-frame c at size b,
            )
        | inr e ↦ rw e (
            Allocated-cons c stop at have true bs _ t (allocate size (at + block_size + have) bs)
              (link-allocate _ size _ bs)
              (malloc_loop-Allocated fuel size (at + block_size + have) stop c bs (omega arith)
                small (omega arith) t.1))
      ])
