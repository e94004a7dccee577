-- ===== src/Frames/Tests.antt =====
-- kernel/page.c and kernel/alloc-tracker.c at a small memory of eight pages.
use riscv_os.Prelude.{ℕ, ◌≡◌, ◌≢◌, refl, true, none, some, List, [], ◌∷◌, arith}
use riscv_os.Frames.{Memory, empty_entry, alloc_pages, free_page, free_all_tracked_for_pid}
use riscv_os.Frames.Tracker.{NoneOf, free_all_tracked_for_pid-NoneOf}
use riscv_os.Frames.Chain.{IsFrames, IsTaken}
use riscv_os.Frames.Handed.{Handed}
use riscv_os.Frames.Alloc.{alloc_pages-Handed}
use riscv_os.Frames.Release.{free_page-IsFrames}

-- The page at 0x1000 is handed out to process 3, and nothing was freed yet.
abbrev one_page : Memory
one_page = record {
  word = λ _. 0;
  free_list = 0;
  next_paddr = 0x2000;
  g_free_pages = 0;
  alloc_table =
      (record { used = true; pa = 0x1000; npages = 1; owner = 3; tag = none }) ∷ empty_entry ∷ [];
  alloc_table_count = 1;
}

one_page-IsFrames : IsFrames 0x9000 one_page []
one_page-IsFrames = record {
  chain = refl;
  counted = refl;
  short = omega arith;
  pages = tt;
  next_aligned = refl;
  next_pos = omega arith;
  next_in = omega arith;
  end_in = omega arith;
}

one_page-IsTaken : IsTaken one_page [] 0x1000
one_page-IsTaken = record { nonnull = omega arith; aligned = refl; below = omega arith; away = tt }

alloc_pages-Handed_example :
    (p : ℕ) × (m' : Memory) × (l' : List ℕ) × (alloc_pages 0x9000 3 1 one_page ≡ some (p, m'))
    × Handed 0x9000 one_page [] p m' l'
alloc_pages-Handed_example = alloc_pages-Handed 0x9000 3 one_page [] one_page-IsFrames (omega arith)

free_page-IsFrames_example :
    IsFrames 0x9000 (free_page 0x1000 one_page) (0x1000 ∷ [])
    × ((q : ℕ)
        → IsTaken one_page [] q
        → q ≢ 0x1000
        → IsTaken (free_page 0x1000 one_page) (0x1000 ∷ []) q)
free_page-IsFrames_example =
    free_page-IsFrames 0x9000 0x1000 one_page [] one_page-IsFrames one_page-IsTaken (omega arith)

free_all_tracked_for_pid-NoneOf_example :
    NoneOf 3 2 (free_all_tracked_for_pid 2 3 one_page).alloc_table
free_all_tracked_for_pid-NoneOf_example = free_all_tracked_for_pid-NoneOf 2 3 one_page
