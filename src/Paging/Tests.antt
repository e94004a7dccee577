-- ===== src/Paging/Tests.antt =====
-- kernel/page.c, kernel/process.c and kernel/user.c: a page table of three pages, with the page at 0x4000 mapped at USER_BASE.
use riscv_os.Syscalls.Copy.{store_byte, copy_to_user}
use riscv_os.Syscalls.Delivered.{stored_from, copy_to_user-IsMapped, copy_to_user-error}
use riscv_os.Prelude.{◌∷◌, ◌++◌, pos, negsuc, ℕ, ◌+◌, ◌≤◌, ◌≡◌, refl, some, [], arith}
use riscv_os.Frames.{free_page, Memory, store}
use riscv_os.Frames.Chain.{IsFrames}
use riscv_os.Frames.Handed.{capacity}
use riscv_os.Paging.{flag_bits, map_page, walk_page, walkaddr, pa_to_pte, user_page_flags}
use riscv_os.Paging.Map.{IsPath}
use riscv_os.Teardown.{free_user_page}
use riscv_os.Teardown.Reset.{free_user_page-IsMapped}
use riscv_os.Paging.Leaf.{IsMapped, map_page-IsMapped, walkaddr-IsMapped}

abbrev with_words : (ℕ → ℕ) → Memory
with_words w = record {
  word = w;
  free_list = 0;
  next_paddr = 0x5000;
  g_free_pages = 0;
  alloc_table = [];
  alloc_table_count = 0;
}

with_words-IsFrames : (w : ℕ → ℕ) → IsFrames 0x9000 (with_words w) []
with_words-IsFrames w = record {
  chain = refl;
  counted = refl;
  short = omega arith;
  pages = tt;
  next_aligned = refl;
  next_pos = omega arith;
  next_in = omega arith;
  end_in = omega arith;
}

-- Only the root table at 0x1000
abbrev bare : Memory
bare = with_words (λ _. 0)

bare-IsPath : IsPath bare [] 0x1000 0x1000000
bare-IsPath = record {
  root_taken = record { nonnull = omega arith; aligned = refl; below = omega arith; away = tt };
  level1 = λ v. cc;
  level0 = λ v. cc;
}

bare-capacity : 2 ≤ capacity 0x9000 bare []
unfolding capacity
bare-capacity = omega arith

map_page-IsMapped_example :
    (m' : Memory) × (map_page 0x9000 0 0x1000 0x1000000 0x4000 user_page_flags bare ≡ some m')
    × IsMapped 0x9000 0x1000 0x1000000 0x4000 user_page_flags m'
map_page-IsMapped_example =
    map_page-IsMapped 0x9000 0 0x1000 0x1000000 0x4000 user_page_flags bare []
      (with_words-IsFrames _) bare-IsPath bare-capacity refl refl

-- The tables at 0x1000, 0x2000 and 0x3000
abbrev one_mapping : Memory
one_mapping = with_words (
    store (store (store (λ _. 0) 0x1000 (pa_to_pte 0x2000 + 1)) 0x2040 (pa_to_pte 0x3000 + 1))
      0x3000 (pa_to_pte 0x4000 + flag_bits user_page_flags))

one_mapping-IsMapped : IsMapped 0x9000 0x1000 0x1000000 0x4000 user_page_flags one_mapping
unfolding store flag_bits
one_mapping-IsMapped = record {
  free_pages = [];
  t1 = 0x2000;
  t0 = 0x3000;
  frames = with_words-IsFrames _;
  tables = record {
    root_taken = record { nonnull = omega arith; aligned = refl; below = omega arith; away = tt };
    taken1 = record { nonnull = omega arith; aligned = refl; below = omega arith; away = tt };
    taken0 = record { nonnull = omega arith; aligned = refl; below = omega arith; away = tt };
    apart1 = omega arith;
    apart0 = omega arith;
    apart_root = omega arith;
    valid2 = refl;
    leads2 = refl;
    valid1 = refl;
    leads1 = refl;
  };
  leaf = refl;
}

walkaddr-IsMapped_example :
    walkaddr 0x80200000 0x1000 (0x1000000 + 5) one_mapping ≡ some (0x4000 + 5)
walkaddr-IsMapped_example =
    walkaddr-IsMapped 0x9000 0x80200000 0x1000 0x1000000 5 0x4000 user_page_flags one_mapping
      one_mapping-IsMapped (omega arith) refl (omega arith) (omega arith) refl (omega arith) refl

free_user_page-IsMapped_example :
    (m' : Memory) × (free_user_page 0x1000 0x1000000 one_mapping ≡ some (free_page 0x4000 m'))
    × IsFrames 0x9000 m' one_mapping-IsMapped.free_pages
    × (walk_page 0x1000 0x1000000 m' ≡ 0)
free_user_page-IsMapped_example =
    free_user_page-IsMapped 0x9000 0x1000 0x1000000 0x4000 user_page_flags one_mapping
      one_mapping-IsMapped refl refl (omega arith) refl

copy_to_user-IsMapped_example :
    copy_to_user 0x80200000 0x1000 (0x1000000 + 8) (7 ∷ 5 ∷ []) one_mapping
    ≡ some (pos 0, stored_from (0x4000 + 8) (7 ∷ 5 ∷ []) one_mapping)
unfolding one_mapping-IsMapped
copy_to_user-IsMapped_example =
    copy_to_user-IsMapped 0x9000 0x80200000 0x1000 0x1000000 0x4000 user_page_flags one_mapping
      one_mapping-IsMapped (omega arith) (omega arith) (omega arith) (omega arith) refl
      (omega arith) refl (omega arith) (omega arith) refl 8 (7 ∷ 5 ∷ []) (omega arith)

-- The two bytes are the last ones of the page's last word.
last_word : (stored_from (0x4000 + 4094) (7 ∷ 5 ∷ []) one_mapping).word 0x4ff8 ≡ 0x0507000000000000
unfolding stored_from store_byte store flag_bits
last_word = refl

next_unmapped :
    walkaddr 0x80200000 0x1000
      (0x1000000 + 4096)
      (stored_from (0x4000 + 4094) (7 ∷ 5 ∷ []) one_mapping)
    ≡ some 0
unfolding walkaddr stored_from store_byte store flag_bits
next_unmapped = refl

copy_to_user-error_example :
    copy_to_user 0x80200000 0x1000 (0x1000000 + 4094) ((7 ∷ 5 ∷ []) ++ 3 ∷ []) one_mapping
    ≡ some (negsuc 0, stored_from (0x4000 + 4094) (7 ∷ 5 ∷ []) one_mapping)
unfolding one_mapping-IsMapped
copy_to_user-error_example =
    copy_to_user-error 0x9000 0x80200000 0x1000 0x1000000 0x4000 user_page_flags one_mapping
      one_mapping-IsMapped (omega arith) (omega arith) (omega arith) (omega arith) refl
      (omega arith) refl (omega arith) (omega arith) refl 4094 (7 ∷ 5 ∷ []) 3 [] refl next_unmapped
