-- ===== src/Heap/Correct.antt =====
-- kernel/heap.c as its callers see it.
use riscv_os.Prelude.{
  ℕ, ◌+◌, ◌-◌, ◌^◌, ◌≤◌, ◌<◌, ◌≡◌, refl, subst, ◌≢◌, ◌∙◌, ◌⊎◌, true, Option, none, some, List, [],
  ◌∷◌, arith, ne→==_false, inl, inr,
}
use riscv_os.Heap.{
  block_size, align8, Cells, Heap, heap_init, ok, malloc_loop, malloc, free_block, free,
}
use riscv_os.Heap.Spans.{Span, allocate, release, live}
use riscv_os.Heap.Tiling.{link, Tiles, length-le, write_self}
use riscv_os.Heap.Refine.{Allocated, malloc_loop-Allocated, link-allocate}
use riscv_os.Heap.Free.{Released, free_block-Released, link-release}
use riscv_os.Heap.Taken.{Apart, live-Apart, Grown, allocate-Grown}
use riscv_os.Heap.Live.{
  NoFit, without, has, allocate-NoFit, allocate-lt, has-lt, live-release, release-total,
}

-- The blocks `bs` tile the heap from its first header to `stop`.
pub record IsHeap (stop : ℕ) (h : Heap) (bs : List Span) : Type 0 where
  pub nonnull : h.free_list ≢ 0
  pub small : stop + 8 < 2 ^ 64
  pub nonempty : link h.free_list bs ≡ h.free_list
  pub tiles : Tiles h.cell stop h.free_list bs

-- On an area that does not begin at 0, has room for a header and ends more than 8 bytes below 2^64,
-- `heap_init` sets up a heap in order, of one free block that has all bytes behind the header.
pub heap_init-IsHeap :
    (heap_start heap_end : ℕ) (c : Cells)
    → 0 < heap_start
    → heap_start + block_size ≤ heap_end
    → heap_end + 8 < 2 ^ 64
    → IsHeap heap_end
        (heap_init heap_start heap_end c)
        ((heap_end - heap_start - block_size, true) ∷ [])
unfolding heap_init
heap_init-IsHeap heap_start heap_end c pos room small = record {
  nonnull = omega arith;
  small = small;
  nonempty = refl;
  tiles = (write_self c heap_start _, omega arith);
}

-- The outcome of `malloc`: it fails only if no free block has the aligned size, and then changes
-- nothing; else it returns the address of a block that was in use by nobody and has at least
-- `size` bytes, every block that was in use still is, at its old place and size, and the blocks in
-- use do not overlap one another or leave the heap.
pub record Served (stop size : ℕ) (h : Heap) (bs : List Span) (p : ℕ) (h' : Heap) : Type 0 where
  pub bs' : List Span
  pub nonnull : p ≢ 0
  pub heap : IsHeap stop h' bs'
  pub same_start : h'.free_list ≡ h.free_list
  pub apart : Apart h'.free_list stop (live h'.free_list bs')
  pub grown : Grown p size (live h.free_list bs) (live h'.free_list bs')

Grown-weaken :
    {p size size' : ℕ} {l l' : List (ℕ × ℕ)} → size' ≤ size → Grown p size l l' → Grown p size' l l'
Grown-weaken h g = record {
  low = g.low;
  high = g.high;
  got = g.got;
  enough = omega arith;
  old = g.old;
  new = g.new;
}

malloc-eq :
    (fuel size : ℕ) (h : Heap) {p : ℕ} {c : Cells}
    → malloc_loop fuel (align8 size) h.free_list h.cell ≡ ok (p, c)
    → malloc fuel size h ≡ ok (p, record h { cell = c })
unfolding malloc
malloc-eq fuel size h e = rw (e, malloc)

malloc-cases :
    (fuel size stop : ℕ) (h : Heap) (bs : List Span)
    → IsHeap stop h bs
    → size + 7 < 2 ^ 64
    → (o : Option (ℕ × List Span)) → allocate (align8 size) h.free_list bs ≡ o
    → Allocated stop h.free_list h.cell o (malloc_loop fuel (align8 size) h.free_list h.cell)
    → ((malloc fuel size h ≡ ok (0, h)) × NoFit (align8 size) bs)
      ⊎ ((p : ℕ) × (h' : Heap) × (malloc fuel size h ≡ ok (p, h')) × Served stop size h bs p h')
malloc-cases fuel size stop h bs v fits none eo a =
    inl (malloc-eq fuel size h a, allocate-NoFit (align8 size) h.free_list bs eo)
malloc-cases fuel size stop h bs v fits (some (p, bs')) eo (c', er, tiles, frame) = inr (
  p,
  record h { cell = c' },
  malloc-eq fuel size h er,
  record {
    bs' = bs';
    nonnull = omega (arith, allocate-lt (align8 size) h.free_list bs p bs' eo);
    heap = record {
      nonnull = v.nonnull;
      small = v.small;
      nonempty = link-allocate h.free_list (align8 size) h.free_list bs p bs' eo ∙ v.nonempty;
      tiles = tiles;
    };
    same_start = refl;
    apart = live-Apart c' stop h.free_list bs' tiles;
    grown = Grown-weaken (omega arith) (allocate-Grown (align8 size) h.free_list bs p bs' eo);
  },
)

-- `malloc` on a tiled heap, for a size that does not wrap when it is aligned and enough fuel for
-- the bytes of the heap: it ends without a fault. Either no free block has the aligned size, and it
-- returns null and changes nothing, or it returns a block that `Served` describes.
pub malloc-Served :
    (fuel size stop : ℕ) (h : Heap) (bs : List Span)
    → IsHeap stop h bs
    → size + 7 < 2 ^ 64
    → stop < fuel
    → ((malloc fuel size h ≡ ok (0, h)) × NoFit (align8 size) bs)
      ⊎ ((p : ℕ) × (h' : Heap) × (malloc fuel size h ≡ ok (p, h')) × Served stop size h bs p h')
malloc-Served fuel size stop h bs v fits enough =
    malloc-cases fuel size stop h bs v fits (allocate (align8 size) h.free_list bs) refl (
      subst
        (λ a.
          Allocated stop h.free_list h.cell (allocate (align8 size) h.free_list bs)
            (malloc_loop fuel (align8 size) a h.cell))
        v.nonempty
        (malloc_loop-Allocated fuel (align8 size) h.free_list stop h.cell bs v.nonnull v.small
          (omega (arith, length-le h.cell stop h.free_list bs v.tiles)) v.tiles))

-- A request within seven bytes of 2^64 is taken for one of no bytes, on every heap and with every
-- amount of fuel.
malloc-wrap :
    (fuel size : ℕ) (h : Heap)
    → size < 2 ^ 64
    → 2 ^ 64 ≤ size + 7
    → malloc fuel size h ≡ malloc fuel 0 h
unfolding malloc
malloc-wrap fuel size h below wraps = let e : align8 size ≡ align8 0 = omega arith in rw (e, malloc)

free-eq :
    (p : ℕ) (h : Heap) {c : Cells}
    → p ≢ 0
    → free_block (p - block_size) h.cell ≡ ok c
    → free p h ≡ ok (record h { cell = c })
unfolding free
free-eq p h ne e = rw (ne→==_false p 0 ne, e, free)

free-cases :
    (p stop : ℕ) (h : Heap) (bs bs' : List Span)
    → IsHeap stop h bs
    → p ≢ 0
    → release p h.free_list bs ≡ some bs'
    → Released stop h.free_list h.cell (some bs') (free_block (p - block_size) h.cell)
    → (h' : Heap) × (free p h ≡ ok h')
      × IsHeap stop h' bs'
      × (live h'.free_list bs' ≡ without p (live h.free_list bs))
free-cases p stop h bs bs' v ne eo (c', er, tiles, frame) = (
  record h { cell = c' },
  free-eq p h ne er,
  record {
    nonnull = v.nonnull;
    small = v.small;
    nonempty = link-release h.free_list p h.free_list bs bs' eo ∙ v.nonempty;
    tiles = tiles;
  },
  live-release p h.free_list bs bs' eo,
)

-- `free` of a block in use, on a tiled heap: it ends without a fault, the heap is tiled again, and
-- of the blocks in use just that one is gone.
pub free-without :
    (p stop : ℕ) (h : Heap) (bs : List Span)
    → IsHeap stop h bs
    → has p (live h.free_list bs) ≡ true
    → (h' : Heap) × (bs' : List Span) × (free p h ≡ ok h')
      × IsHeap stop h' bs'
      × (live h'.free_list bs' ≡ without p (live h.free_list bs))
free-without p stop h bs v used =
    let (bs', eo) = release-total p h.free_list bs used in
    let (h', ef, v', el) =
      free-cases p stop h bs bs' v (omega (arith, has-lt p h.free_list bs used)) eo (
        subst (λ o. Released stop h.free_list h.cell o (free_block (p - block_size) h.cell)) eo
          (free_block-Released p h.free_list stop h.cell bs v.nonnull (omega arith) v.tiles)) in
    (h', bs', ef, v', el)
