-- ===== src/Syscalls/Tests.antt =====
-- kernel/syscall.c: a child of the first process exits, and a process forks.
use riscv_os.Prelude.{ℕ, ◌≤◌, ◌≡◌, refl, pos, true, false, some, [], ◌∷◌, arith}
use riscv_os.Process.{Kernel, empty_proc, runnable, running, proc_at}
use riscv_os.Syscalls.{sys_exit, find_zombie, is_dead_child}
use mathlib.Core.Option
use riscv_os.Process.{TrapFrame}
use riscv_os.Traps.Invariant.{OnSome}
use riscv_os.Syscalls.{sys_fork}
use riscv_os.Syscalls.Fork.{ForkEnd, sys_fork-ForkEnd}
use riscv_os.Syscalls.Reap.{find_zombie-sys_exit}

abbrev parent_and_child : Kernel
parent_and_child = record {
  procs =
      (record empty_proc { pid = 1; state = runnable })
      ∷ (record empty_proc { pid = 2; state = running; parent = some 0; parent_pid = 1 })
      ∷ [];
  current = some 1;
  idle = 0;
  process_count = 2;
  g_startup = false;
  memory = record {
    word = λ _. 0;
    free_list = 0;
    next_paddr = 0x1000;
    g_free_pages = 0;
    alloc_table = [];
    alloc_table_count = 0;
  };
}

find_zombie-sys_exit_example :
    (k' : Kernel) × (i : ℕ) × (sys_exit (pos 42) parent_and_child ≡ some k')
    × (find_zombie 0 k'.procs 0 ≡ some i)
    × (i ≤ 1)
    × (is_dead_child 0 (proc_at k'.procs i) ≡ true)
    × ((proc_at k'.procs 1).exit_code ≡ pos 42)
find_zombie-sys_exit_example =
    find_zombie-sys_exit parent_and_child 1 0 (pos 42) refl (omega arith) refl

abbrev parent_tf : TrapFrame
parent_tf = record { regs = λ r. r; sp = 0x2000; epc = 0x1000100 }

-- The second process of a table of eight runs; four pages are left.
abbrev one_running : Kernel
one_running = record {
  procs =
      (record empty_proc { pid = 1; state = runnable })
      ∷ (record empty_proc { pid = 2; state = running; tf = some parent_tf; heap_end = 0x1000000 })
      ∷ empty_proc
      ∷ empty_proc
      ∷ empty_proc
      ∷ empty_proc
      ∷ empty_proc
      ∷ empty_proc
      ∷ [];
  current = some 1;
  idle = 0;
  process_count = 2;
  g_startup = false;
  memory = record {
    word = λ _. 0;
    free_list = 0;
    next_paddr = 0x5000;
    g_free_pages = 4;
    alloc_table = [];
    alloc_table_count = 0;
  };
}

sys_fork-ForkEnd_example :
    OnSome (ForkEnd one_running 1 parent_tf) (sys_fork 0x9000 0x9000 one_running)
sys_fork-ForkEnd_example =
    sys_fork-ForkEnd 0x9000 0x9000 one_running 1 parent_tf refl refl (omega arith) refl refl

-- The call returns the pid of the third entry.
forked_pid : Option.map (λ r. r.0) (sys_fork 0x9000 0x9000 one_running) ≡ some (pos 3)
unfolding sys_fork riscv_os.Process.alloc_free_proc riscv_os.Frames.alloc_pages
    riscv_os.Image.map_kernel riscv_os.Paging.map_range_loop riscv_os.Text.strncpy
forked_pid = refl
