-- ===== src/Teardown.antt =====
-- What a process leaves behind: `free_pagetable` of kernel/page.c, and `process_free_userspace` and
-- `free_proc` of kernel/process.c. `none` is a PANIC, or a page table that does not end within the
-- fuel; each level of tables takes one unit.
pub mod Reset
use riscv_os.Prelude.{
  u64, ℕ, zero, suc, ◌+◌, ◌-◌, ◌*◌, ◌/◌, ℤ, pos, negsuc, Bool, true, false, not, ◌&&◌, Option, none,
  some, List, [], ◌∷◌, ltb, ◌==◌, if◌then◌else◌, ◌>>=◌, set,
}
use riscv_os.Frames.{Memory, page_size, free_page, free_pages_range, free_all_tracked_for_pid}
use riscv_os.Paging.{valid, user, permits, pte_to_pa, slot, store_word, px2, px1, px0, unmap_page}
use riscv_os.Process.{Proc, Kernel, proc_at, set_proc, unused}

-- The body of the loop of `free_pagetable` at index `i`: `free_table` frees a table below, and
-- `is_last` is `lvl == 0`.
unfoldable pub free_table_entry :
    (ℕ → Memory → Option Memory) → Bool → ℕ → ℕ → Memory → Option Memory
free_table_entry free_table is_last pt i m =
    let e = m.word (slot pt i) in
    if not (valid e)
    then some m
    else if permits e && is_last
    then some (store_word (slot pt i) 0 (if user e then free_page (pte_to_pa e) m else m))
    else free_table (pte_to_pa e) m >>= λ m'.
        some (store_word (slot pt i) 0 (free_page (pte_to_pa e) m'))

-- The rounds left, and `i`.
unfoldable pub free_table_loop :
    (ℕ → Memory → Option Memory) → Bool → ℕ → ℕ → ℕ → Memory → Option Memory
unfolding free_table_entry
free_table_loop free_table is_last pt zero i m = some m
free_table_loop free_table is_last pt (suc n) i m =
    free_table_entry free_table is_last pt i m >>= λ m'.
    free_table_loop free_table is_last pt n (i + 1) m'

abbrev pub pred_ℤ : ℤ → ℤ
pred_ℤ (pos zero) = negsuc 0
pred_ℤ (pos (suc n)) = pos n
pred_ℤ (negsuc n) = negsuc (suc n)

abbrev pub is_zero_ℤ : ℤ → Bool
is_zero_ℤ (pos n) = n == 0
is_zero_ℤ (negsuc n) = false

unfoldable pub free_pagetable : ℕ → ℕ → ℤ → Memory → Option Memory
unfolding free_table_loop
free_pagetable zero pt lvl m = none
free_pagetable (suc fuel) pt lvl m =
    free_table_loop (λ child m'. free_pagetable fuel child (pred_ℤ lvl) m') (is_zero_ℤ lvl) pt 512 0
      m

abbrev pub user_base : ℕ
user_base = 0x1000000

-- The body of the loop of `process_free_userspace`.
unfoldable pub free_user_page : ℕ → ℕ → Memory → Option Memory
free_user_page root va m =
    let e2 = m.word (slot root (px2 va)) in
    if not (valid e2)
    then some m
    else (let e1 = m.word (slot (pte_to_pa e2) (px1 va)) in
        if not (valid e1)
        then some m
        else (let e0 = m.word (slot (pte_to_pa e1) (px0 va)) in
            if not (valid e0)
            then some m
            else if not (user e0)
            then some m
            else unmap_page root va m >>= λ m'. some (free_page (pte_to_pa e0) m')))

-- The rounds left, and `va`.
unfoldable pub free_user_loop : ℕ → ℕ → ℕ → Memory → Option Memory
unfolding free_user_page
free_user_loop root zero va m = some m
free_user_loop root (suc n) va m =
    free_user_page root va m >>= λ m'. free_user_loop root n (va + page_size) m'

-- How often the loop runs: from USER_BASE up to and with the end, rounded up to a whole page. An
-- end in the last page of the address space, where the loop would not end, is left out.
abbrev pub user_rounds : ℕ → ℕ
user_rounds last = if ltb last user_base then 0 else (last - user_base) / page_size + 1

abbrev pub end_va : ℕ → Proc → ℕ
end_va stack_top p =
    u64 ((if ltb stack_top p.heap_end then p.heap_end else stack_top) + (page_size - 1))
    / page_size
    * page_size

-- `stack_top` is `g_user_stack_top`.
module _ (fuel stack_top : ℕ) where
  unfoldable pub process_free_userspace : Proc → Memory → Option (Proc × Memory)
  unfolding free_user_loop free_pagetable
  process_free_userspace p m =
      if p.page_table == 0
      then some (p, m)
      else free_user_loop p.page_table (user_rounds (end_va stack_top p)) user_base m >>= λ m1.
          free_pagetable fuel p.page_table (pos 2) m1 >>= λ m2.
          some (record p { page_table = 0 }, free_page p.page_table m2)

  -- `if (proc->image_pa)`
  unfoldable pub free_image : Proc → Memory → Proc × Memory
  free_image p m =
      if not (p.image_pa == 0)
      then (
        record p { image_pa = 0; image_npages = 0 },
        free_pages_range p.image_pa p.image_npages m,
      )
      else (p, m)

  -- The assignments at the end of `free_proc`, in their order, and the first `n` of them.
  abbrev pub resets : List (Proc → Proc)
  resets =
      (λ p. record p { state = unused })
      ∷ (λ p. record p { pid = 0 })
      ∷ (λ p. record p { parent = none })
      ∷ (λ p. record p { name = set p.name 0 0 })
      ∷ (λ p. record p { heap_end = 0 })
      ∷ (λ p. record p { user_stack_top = 0 })
      ∷ (λ p. record p { argc = 0 })
      ∷ (λ p. record p { argv_ptr = 0 })
      ∷ []

  abbrev pub reset_some : ℕ → List (Proc → Proc) → Proc → Proc
  reset_some zero fs p = p
  reset_some (suc n) [] p = p
  reset_some (suc n) (f ∷ fs) p = reset_some n fs (f p)

  abbrev pub reset_fields : Proc → Proc
  reset_fields p = reset_some 8 resets p

  -- `free_proc` up to the call of `free_all_tracked_for_pid`, which returns with interrupts enabled.
  -- `max` is MAX_TRACKED_ALLOCS.
  unfoldable pub release : ℕ → ℕ → Kernel → Option (Proc × Memory)
  unfolding process_free_userspace free_image
  release max i k =
      let (p1, m1) = free_image (record (proc_at k.procs i) { tf = none }) k.memory in
      process_free_userspace p1 m1 >>= λ (p2, m2). some (p2, free_all_tracked_for_pid max p2.pid m2)

  -- The process is one of those that `process_count` counts.
  unfoldable pub free_proc : ℕ → ℕ → Kernel → Option Kernel
  unfolding release
  free_proc max i k = release max i k >>= λ (p, m). some (record k {
    procs = set_proc k.procs i (reset_fields p);
    memory = m;
    process_count = k.process_count - 1;
  })

  -- The kernel in the middle of `free_proc`, with interrupts enabled and `n` assignments done.
  unfoldable pub freeing : ℕ → ℕ → ℕ → Kernel → Option Kernel
  unfolding release
  freeing max n i k = release max i k >>= λ (p, m).
      some (record k { procs = set_proc k.procs i (reset_some n resets p); memory = m })
