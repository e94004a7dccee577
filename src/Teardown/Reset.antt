-- ===== src/Teardown/Reset.antt =====
-- kernel/process.c: a user page that is mapped is unmapped and freed.
use riscv_os.Prelude.{ℕ, ◌+◌, ◌%◌, ◌^◌, ◌<◌, ◌≡◌, ◌∙◌, true, some}
use riscv_os.Frames.{Memory, page_size, free_page}
use riscv_os.Frames.Chain.{IsFrames}
use riscv_os.Paging.{Flags, flag_bits, user, pa_to_pte, unmap_page, walk_page}
use riscv_os.Paging.Entry.{valid-flag_bits, user-flag_bits, pte_to_pa-flag_bits}
use riscv_os.Paging.Leaf.{IsMapped, walk_page-unmap_page}
use riscv_os.Teardown.{free_user_page}

free_user_page-leaf :
    (ram_end root va pa : ℕ) (flags : Flags) (m m' : Memory)
    → IsMapped ram_end root va pa flags m
    → pa % page_size ≡ 0
    → pa < 2 ^ 64
    → flags.u ≡ true
    → unmap_page root va m ≡ some m'
    → free_user_page root va m ≡ some (free_page pa m')
unfolding free_user_page
free_user_page-leaf ram_end root va pa flags m m' d ep small eu em =
    let eu' : user (pa_to_pte pa + flag_bits flags) ≡ true = user-flag_bits pa flags ∙ eu in
    rw (d.tables.valid2, d.tables.leads2, free_user_page)
      (rw (d.tables.valid1, d.tables.leads1)
        (rw (d.leaf, valid-flag_bits pa flags, eu', em, pte_to_pa-flag_bits pa flags ep small)))

-- What the loop of `process_free_userspace` does at a whole page's address that is mapped for the
-- user to a whole page below 2^64 (`IsMapped`): the mapping is taken away, so that `walk_page`
-- finds no page there and the allocator's state is kept, and the physical page is then passed to
-- `free_page`.
pub free_user_page-IsMapped :
    (ram_end root va pa : ℕ) (flags : Flags) (m : Memory)
    → (d : IsMapped ram_end root va pa flags m) → va % page_size ≡ 0
    → pa % page_size ≡ 0
    → pa < 2 ^ 64
    → flags.u ≡ true
    → (m' : Memory) × (free_user_page root va m ≡ some (free_page pa m'))
      × IsFrames ram_end m' d.free_pages
      × (walk_page root va m' ≡ 0)
free_user_page-IsMapped ram_end root va pa flags m d ev ep small eu =
    let (m', e, f, w) = walk_page-unmap_page ram_end root va pa flags m d ev in
    (m', free_user_page-leaf ram_end root va pa flags m m' d ep small eu e, f, w)
