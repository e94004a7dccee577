-- ===== src/UserHeap/Correct.antt =====
-- user/lib/malloc.c: what `malloc` and `free` do to the free blocks.
use riscv_os.Prelude.{
  u64, ℕ, ◌+◌, ◌-◌, ◌*◌, ◌/◌, ◌^◌, ◌<◌, ◌≡◌, refl, sym, ap, subst, ◌∙◌, ◌≢◌, ◌⊎◌, inl, inr, ℤ, pos,
  negsuc, false, Option, none, some, List, [], ◌∷◌, ◌==◌, arith, length, Bool-cases, ne→==_false,
}
use riscv_os.UserHeap.{
  Block, UserHeap, block_size, write, search_list, heap_end_of, sbrk, sbrk_end, new_block, malloc,
  free,
}
use riscv_os.UserHeap.FreeList.{
  Span, Chain, Outside, Apart, Blocks, first_fit, Apart-Outside, Chain-same,
}
use riscv_os.UserHeap.Links.{write_self, write_ne}
use riscv_os.UserHeap.Take.{Found, search-Found}
use riscv_os.UserHeap.Fit.{Taken, first_fit-Taken}

-- The size that `malloc` looks for
abbrev pub aligned : ℕ → ℕ
aligned n = u64 (n + 7) / 8 * 8

-- `malloc` by the first block that is large enough: that block, in part or whole, leaves the list,
-- and what is left is the list that `free_list` leads to; or there is no such block, and what `sbrk`
-- gives is handed out and the list stays.
abbrev pub Allocated :
    ℕ
    → List Span
    → Option (ℕ × List Span)
    → UserHeap
    → Option (ℕ × UserHeap)
    → Option (ℕ × UserHeap)
    → Type 0
Allocated size l none h grown o =
    (r : ℕ × UserHeap) × (o ≡ some r) × (grown ≡ some r) × Chain r.1.block r.1.free_list l
Allocated size l (some (p, l')) h grown o =
    (h' : UserHeap) × (o ≡ some (p + block_size, h'))
    × Chain h'.block h'.free_list l'
    × Taken size l (some (p, l'))

-- A block outside of the free ones is written.
new_block-Chain :
    (heap_start : ℕ) (syscall : ℕ → ℤ) (size mem : ℕ) (h : UserHeap) (l : List Span)
    → Chain h.block h.free_list l
    → (mem ≡ 2 ^ 64 - 1) ⊎ Outside mem l
    → Chain
        (new_block heap_start syscall size (mem, h)).1.block
        (new_block heap_start syscall size (mem, h)).1.free_list
        l
unfolding new_block
new_block-Chain heap_start syscall size mem h l c (inl e) = rw e c
new_block-Chain heap_start syscall size mem h l c (inr out) =
    elim (Bool-cases (mem == 2 ^ 64 - 1)) [
      | inl e ↦ rw e c
      | inr e ↦ rw e (
          Chain-same h.block _ h.free_list l
            (λ y inside.
              write_ne h.block mem _ y (λ q. inside (subst (λ z. Outside z l) (sym q) out)))
            c)
    ]

sbrk_end-Chain :
    (heap_start : ℕ) (syscall : ℕ → ℤ) (r : ℤ) (end increment size : ℕ) (h : UserHeap)
    (l : List Span)
    → Chain h.block h.free_list l
    → Outside end l
    → Chain
        (new_block heap_start syscall size (sbrk_end r end increment h)).1.block
        (new_block heap_start syscall size (sbrk_end r end increment h)).1.free_list
        l
unfolding sbrk_end
sbrk_end-Chain heap_start syscall (negsuc n) end increment size h l c out =
    new_block-Chain heap_start syscall size (2 ^ 64 - 1) _ l c (inl refl)
sbrk_end-Chain heap_start syscall (pos n) end increment size h l c out =
    new_block-Chain heap_start syscall size end _ l c (inr out)

malloc-Found :
    (heap_start : ℕ) (syscall : ℕ → ℤ) (fuel n : ℕ) (h : UserHeap) (l : List Span)
    (r : Option (ℕ × List Span))
    → Chain h.block h.free_list l
    → Outside (heap_end_of heap_start syscall h) l
    → Found 0 h l (search_list fuel 0 h.free_list (aligned n) h) r
    → Taken (aligned n) l r
    → Allocated
        (aligned n)
        l
        r
        h
        (some (
          new_block heap_start syscall
            (aligned n)
            (sbrk heap_start syscall (u64 (aligned n + block_size)) h)))
        (malloc heap_start syscall fuel n h)
unfolding malloc sbrk
malloc-Found heap_start syscall fuel n h l none c out found t = (
  _,
  rw (malloc, found),
  refl,
  sbrk_end-Chain heap_start syscall (syscall (u64 (aligned n + block_size)))
      (heap_end_of heap_start syscall h) (u64 (aligned n + block_size)) (aligned n) h l c out,
)
malloc-Found heap_start syscall fuel n h l (some (p, l')) c out (h', e, k) t =
    (h', rw (malloc, e), k.chain, t)

Outside-Chain : (b : ℕ → Block) (a : ℕ) (l : List Span) → Chain b a l → Outside 0 l
Outside-Chain b a [] c = tt
Outside-Chain b a (s ∷ l) c =
    let pos : s.at ≢ 0 = c.1 in (inl (omega (arith, pos)), Outside-Chain b (b s.at).next l c.3)

-- The heap of a program whose `free_list` leads to blocks that end below 2^63 and have nothing in
-- common, and where `sbrk` goes on outside of them. With fuel for these blocks, `malloc` ends, and
-- does what the search for the first large enough block in a list does (`first_fit`): it hands out
-- that block behind its header, `free_list` then leads to the blocks that are left, and none of
-- them has anything in common with another or with what was handed out; or no block is large
-- enough, `malloc` returns what `sbrk` gives, or null, and `free_list` leads to the same blocks.
pub malloc-Allocated :
    (heap_start : ℕ) (syscall : ℕ → ℤ) (fuel n : ℕ) (h : UserHeap) (l : List Span)
    → length l < fuel
    → Chain h.block h.free_list l
    → Blocks l
    → Outside (heap_end_of heap_start syscall h) l
    → Allocated
        (aligned n)
        l
        (first_fit (aligned n) l)
        h
        (some (
          new_block heap_start syscall
            (aligned n)
            (sbrk heap_start syscall (u64 (aligned n + block_size)) h)))
        (malloc heap_start syscall fuel n h)
malloc-Allocated heap_start syscall fuel n h l enough c b out =
    malloc-Found heap_start syscall fuel n h l (first_fit (aligned n) l) c out
      (search-Found fuel 0 (aligned n) h.free_list h l enough refl c b
        (Outside-Chain h.block h.free_list l c))
      (first_fit-Taken (aligned n) l b)

-- The heap behind `free`
abbrev freed : UserHeap → ℕ → UserHeap
freed h p = record h {
  block = write h.block p (record (h.block p) { next = h.free_list });
  free_list = p;
}

free-freed : (h : UserHeap) (p : ℕ) → free (p + block_size) h ≡ freed h p
unfolding free
free-freed h p =
    let back : p + block_size - block_size ≡ p = omega arith in
    let ptr : (p + block_size == 0) ≡ false =
      ne→==_false (p + block_size) 0 (λ e. absurd (omega (arith, e))) in
    rw ptr (ap (freed h) back)

-- `free` of a block in use puts it in front of the free blocks.
free-Chain :
    (h : UserHeap) (s : Span) (l : List Span)
    → s.at ≢ 0
    → (h.block s.at).size ≡ s.size
    → Apart s l
    → Chain h.block h.free_list l
    → Chain (free (s.at + block_size) h).block (free (s.at + block_size) h).free_list (s ∷ l)
free-Chain h s l nonzero es apart c =
    let b' = write h.block s.at (record (h.block s.at) { next = h.free_list }) in
    let header = write_self h.block s.at (record (h.block s.at) { next = h.free_list }) in
    subst (λ g. Chain g.block g.free_list (s ∷ l)) (sym (free-freed h s.at))
      (
        refl,
        nonzero,
        ap (λ b. b.size) header ∙ es,
        subst (λ b. Chain b' b.next l) (sym header)
            (Chain-same h.block b' h.free_list l
              (λ y inside. write_ne h.block s.at _ y (λ e. inside (
                subst (λ z. Outside z l) (sym e)
                  (Apart-Outside s s.at l (omega arith) (omega arith) apart))))
              c),
      )
