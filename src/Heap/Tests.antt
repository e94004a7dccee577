-- ===== src/Heap/Tests.antt =====
-- kernel/heap.c on a small heap, and the theorems there.
use riscv_os.Prelude.{ℕ, ◌-◌, ◌≡◌, refl, ◌⊎◌, true, false, none, List, [], ◌∷◌, arith}
use riscv_os.Heap.{Heap, block_size, align8, write, heap_init, Run, ok, malloc, free}
use riscv_os.Heap.Spans.{Span, live}
use riscv_os.Heap.Live.{NoFit, without, has}
use riscv_os.Heap.Correct.{IsHeap, Served, heap_init-IsHeap, malloc-Served, free-without}

-- 256 bytes at 0x1000
abbrev fresh : Heap
fresh = heap_init 0x1000 0x1100 (λ _. none)

abbrev fresh_spans : List Span
fresh_spans = (0x1100 - 0x1000 - block_size, true) ∷ []

first_address : Run (ℕ × Heap) → ℕ
first_address (ok (p, h)) = p
first_address r = 1

-- 13 bytes are served behind the first header.
first_malloc : first_address (malloc 0x2000 13 fresh) ≡ 0x1018
unfolding first_address malloc heap_init
first_malloc = refl

-- 300 bytes do not fit.
large_malloc : first_address (malloc 0x2000 300 fresh) ≡ 0
unfolding first_address malloc heap_init
large_malloc = refl

-- One block of 16 bytes in use, and the free rest.
abbrev used_spans : List Span
used_spans = (16, false) ∷ (192, true) ∷ []

abbrev used : Heap
used = record {
  free_list = 0x1000;
  cell =
      write (write (λ _. none) 0x1028 (record { size = 192; next = 0; free = true })) 0x1000
        (record { size = 16; next = 0x1028; free = false });
}

used-IsHeap : IsHeap 0x1100 used used_spans
unfolding write
used-IsHeap = record {
  nonnull = omega arith;
  small = omega arith;
  nonempty = refl;
  tiles = (refl, (refl, omega arith));
}

heap_init-IsHeap_example : IsHeap 0x1100 fresh fresh_spans
heap_init-IsHeap_example =
    heap_init-IsHeap 0x1000 0x1100 (λ _. none) (omega arith) (omega arith) (omega arith)

malloc-Served_example :
    ((malloc 0x2000 13 used ≡ ok (0, used)) × NoFit (align8 13) used_spans)
    ⊎ ((p : ℕ) × (h : Heap) × (malloc 0x2000 13 used ≡ ok (p, h))
        × Served 0x1100 13 used used_spans p h)
malloc-Served_example =
    malloc-Served 0x2000 13 0x1100 used used_spans used-IsHeap (omega arith) (omega arith)

used-has : has 0x1018 (live 0x1000 used_spans) ≡ true
unfolding has live
used-has = refl

free-without_example :
    (h : Heap) × (bs : List Span) × (free 0x1018 used ≡ ok h)
    × IsHeap 0x1100 h bs
    × (live h.free_list bs ≡ without 0x1018 (live 0x1000 used_spans))
free-without_example = free-without 0x1018 0x1100 used used_spans used-IsHeap used-has
