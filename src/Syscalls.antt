-- ===== src/Syscalls.antt =====
-- kernel/syscall.c: the calls that change processes and their memory. A call's result is the value
-- that it returns and the kernel after it; `none` is a PANIC or a null `current_proc`. What is
-- printed for debugging is left out.
pub mod Reap
pub mod Copy
pub mod Delivered
pub mod Fork
pub mod Console
pub mod Exec
mod Tests
use riscv_os.Prelude.{
  u64, ℕ, zero, suc, ◌+◌, ◌-◌, ◌*◌, ◌/◌, ◌%◌, ◌^◌, ℤ, pos, negsuc, Bool, true, false, not, ◌&&◌,
  ◌||◌, Option, none, some, List, [], ◌∷◌, ◌++◌, leb, ltb, ◌==◌, if◌then◌else◌, ◌>>=◌, length, take,
  drop,
}
use riscv_os.Frames.{Memory, page_size, alloc_pages}
use riscv_os.Paging.{
  user_data_flags, user_page_flags, map_page, map_range_loop, kernel_flags, walk_page,
}
use riscv_os.Process.{
  Proc, Kernel, ProcState, TrapFrame, zombie, runnable, reg_a0, set_reg, proc_at, set_proc,
  is_zombie, alloc_free_proc, proc_name_max_len,
}
use riscv_os.Scheduler.{with_state, yield}
use riscv_os.Image.{owner_of, copy, map_kernel}
use riscv_os.Teardown.{user_base, free_proc, freeing}
use riscv_os.Text.{strncpy}

-- `PGROUNDUP`
abbrev pub page_round_up : ℕ → ℕ
page_round_up x = u64 (x + (page_size - 1)) / page_size * page_size

-- An `increment` is given by its 64 bits; `increment > 0`.
abbrev pub is_positive : ℕ → Bool
is_positive inc = not (inc == 0) && ltb inc (2 ^ 63)

module _ (kernel_base ram_end : ℕ) where
  -- The loop of `sys_sbrk`: the rounds left, and `addr`.
  unfoldable pub grow_heap : ℕ → ℕ → ℕ → ℕ → Memory → Option Memory
  grow_heap owner pt zero addr m = some m
  grow_heap owner pt (suc n) addr m = alloc_pages ram_end owner 1 m >>= λ (pa, m1).
      map_page ram_end owner pt addr pa user_data_flags m1 >>= λ m2.
      grow_heap owner pt n (u64 (addr + page_size)) m2

  -- How often the loop runs from `addr` while it is below `new_heap`.
  abbrev pub heap_rounds : ℕ → ℕ → ℕ
  heap_rounds addr new_heap = (new_heap - addr + (page_size - 1)) / page_size

  -- `alloc_pages` never returns 0 here, since it halts when no page is left.
  unfoldable pub sys_sbrk : ℕ → Kernel → Option (ℕ × Kernel)
  unfolding grow_heap owner_of
  sys_sbrk increment k = k.current >>= λ cur.
      (let p = proc_at k.procs cur in
        let new_heap = u64 (p.heap_end + increment) in
        (if is_positive increment
          then grow_heap (owner_of k) p.page_table (heap_rounds (page_round_up p.heap_end) new_heap)
              (page_round_up p.heap_end) k.memory
          else some k.memory)
        >>= λ m. some (
          p.heap_end,
          record k { procs = set_proc k.procs cur (record p { heap_end = new_heap }); memory = m },
        ))

  -- Step 9 of `sys_fork`: the rounds left, and `va`.
  unfoldable pub copy_user_pages : ℕ → ℕ → ℕ → ℕ → ℕ → Memory → Option Memory
  unfolding copy
  copy_user_pages owner parent_pt new_pt zero va m = some m
  copy_user_pages owner parent_pt new_pt (suc n) va m =
      let pa_parent = walk_page parent_pt va m in
      if pa_parent == 0
      then copy_user_pages owner parent_pt new_pt n (va + page_size) m
      else (alloc_pages ram_end owner 1 m >>= λ (pa_child, m1).
          map_page ram_end owner new_pt va pa_child user_page_flags
            (record m1 { word = copy m1.word pa_child pa_parent page_size })
          >>= λ m2. copy_user_pages owner parent_pt new_pt n (va + page_size) m2)

  abbrev pub fork_end : Proc → ℕ
  fork_end parent =
      if ltb parent.user_stack_top parent.heap_end then parent.heap_end else parent.user_stack_top

  abbrev pub fork_rounds : ℕ → ℕ
  fork_rounds last = (last - user_base + (page_size - 1)) / page_size

  -- Steps 3 to 6: the frames of the child and of the parent.
  abbrev pub child_frame : TrapFrame → TrapFrame
  child_frame tf = record tf { regs = set_reg tf.regs reg_a0 0; epc = u64 (tf.epc + 4) }

  abbrev pub parent_frame : ℕ → TrapFrame → TrapFrame
  parent_frame child_pid tf = record tf { regs = set_reg tf.regs reg_a0 child_pid }

  -- `strncpy(child->name, parent->name, sizeof(child->name) - 1)` and the terminator
  unfoldable pub copy_name : Proc → Proc → Option (List ℕ)
  copy_name child parent = strncpy child.name parent.name (proc_name_max_len - 1) >>= λ s.
      some (take (proc_name_max_len - 1) s ++ (0 ∷ []))

  -- Steps 7 to 9: the child's page table.
  unfoldable pub fork_space : ℕ → Proc → Memory → Option (ℕ × Memory)
  unfolding copy_user_pages
  fork_space owner parent m = alloc_pages ram_end owner 1 m >>= λ (pt, m1).
      map_kernel kernel_base ram_end owner pt m1 >>= λ m2.
      copy_user_pages owner parent.page_table pt (fork_rounds (fork_end parent)) user_base m2
      >>= λ m3. some (pt, m3)

  -- Step 10: the fields of the child.
  abbrev pub forked_proc : ℕ → Proc → Proc → ℕ → TrapFrame → List ℕ → Proc
  forked_proc cur parent child pt tf name = record child {
    tf = some (child_frame tf);
    page_table = pt;
    state = runnable;
    heap_end = parent.heap_end;
    user_stack_top = parent.user_stack_top;
    entry_point = parent.entry_point;
    parent = some cur;
    parent_pid = parent.pid;
    name = name;
  }

  -- The page that holds the child's frame stays in the allocator's state; its contents are the
  -- child's `tf`. No free entry gives -1.
  unfoldable pub sys_fork : Kernel → Option (ℤ × Kernel)
  unfolding fork_space copy_name owner_of
  sys_fork k = k.current >>= λ cur. elim (alloc_free_proc k.procs) [
    | none ↦ some (negsuc 0, k)
    | some (i, ps) ↦ alloc_pages ram_end (owner_of k) 1 k.memory >>= λ (page, m1).
        (proc_at ps cur).tf >>= λ tf. fork_space (owner_of k) (proc_at ps cur) m1 >>= λ (pt, m2).
        copy_name (proc_at ps i) (proc_at ps cur) >>= λ name. some (
          pos (proc_at ps i).pid,
          record k {
            procs =
                set_proc
                  (set_proc ps cur
                    (record (proc_at ps cur) { tf = some (parent_frame (proc_at ps i).pid tf) }))
                  i (forked_proc cur (proc_at ps cur) (proc_at ps i) pt tf name);
            process_count = k.process_count + 1;
            memory = m2;
          },
        )
  ]

unfoldable pub sys_exit : ℤ → Kernel → Option Kernel
sys_exit code k = k.current >>= λ cur. some (record k {
  procs = set_proc k.procs cur (record (proc_at k.procs cur) { state = zombie; exit_code = code });
})

abbrev pub is_child : Option ℕ → ℕ → Bool
is_child none cur = false
is_child (some i) cur = i == cur

unfoldable pub is_dead_child : ℕ → Proc → Bool
is_dead_child cur p = is_zombie p.state && is_child p.parent cur

-- The `for` loop of `sys_wait` from index `i`.
unfoldable pub find_zombie : ℕ → List Proc → ℕ → Option ℕ
unfolding is_dead_child
find_zombie cur [] i = none
find_zombie cur (p ∷ ps) i = if is_dead_child cur p then some i else find_zombie cur ps (i + 1)

-- One round of `sys_wait`: the pid and the status of a child that was cleaned up, or that the
-- process gave up the CPU and looks again when it runs next.
pub data Waited : Type 0 where
  reaped : ℕ → ℤ → Kernel → Waited
  yielded : Kernel → Bool → Waited

unfoldable pub wait_round : (fuel stack_top max : ℕ) → Kernel → Option Waited
unfolding find_zombie
wait_round fuel stack_top max k = k.current >>= λ cur. elim (find_zombie cur k.procs 0) [
  | none ↦ yield k >>= λ (k', switched). some (yielded k' switched)
  | some i ↦ free_proc fuel stack_top max i k >>= λ k'.
      some (reaped (proc_at k.procs i).pid (proc_at k.procs i).exit_code k')
]

-- Where the timer can interrupt `sys_wait`: `free_proc` has enabled interrupts, and `n` of its
-- assignments are done, or it has returned.
unfoldable pub wait_interrupted : (fuel stack_top max : ℕ) → ℕ → Kernel → Option Kernel
unfolding find_zombie
wait_interrupted fuel stack_top max n k = k.current >>= λ cur. find_zombie cur k.procs 0 >>= λ i.
    if leb n 8 then freeing fuel stack_top max n i k else free_proc fuel stack_top max i k
