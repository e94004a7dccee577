-- ===== src/UserHeap/Tests.antt =====
-- user/lib/malloc.c at a heap with two free blocks.
use riscv_os.Prelude.{◌≡◌, inl, inr, refl, pos, some, [], ◌∷◌, ◌==◌, if◌then◌else◌, arith}
use riscv_os.UserHeap.{UserHeap, malloc}
use riscv_os.UserHeap.FreeList.{Span, Chain}
use riscv_os.UserHeap.Fit.{Taken}
use riscv_os.UserHeap.Correct.{malloc-Allocated}

-- 16 bytes at 0x1000, and 64 bytes at 0x2000
abbrev heap : UserHeap
heap = record {
  block = λ a.
      if a == 0x1000 then record { size = 16; next = 0x2000 } else record { size = 64; next = 0 };
  free_list = 0x1000;
  heap_end = 0x3000;
}

abbrev small : Span
small = record { at = 0x1000; size = 16 }

abbrev large : Span
large = record { at = 0x2000; size = 64 }

-- The larger block is split: 24 bytes of it are left behind a header.
malloc-Allocated_example :
    (h' : UserHeap) × (malloc 0x1000 (λ n. pos 0) 3 21 heap ≡ some (0x2010, h'))
    × Chain h'.block h'.free_list (small ∷ record { at = 0x2028; size = 24 } ∷ [])
    × Taken 24 (small ∷ large ∷ []) (some (0x2000, small ∷ record { at = 0x2028; size = 24 } ∷ []))
malloc-Allocated_example =
    malloc-Allocated 0x1000 (λ n. pos 0) 3 21 heap (small ∷ large ∷ []) (omega arith)
      (
        refl,
        (λ e. absurd (omega (arith, e))),
        refl,
        (refl, (λ e. absurd (omega (arith, e))), refl, refl),
      )
      (omega arith, (inl (omega arith), tt), (omega arith, tt, tt))
      (inr (omega arith), (inr (omega arith), tt))
