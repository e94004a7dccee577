-- ===== src/Traps/Tests.antt =====
-- kernel/trap.c at a small table of processes.
use riscv_os.Prelude.{
  ℕ, zero, suc, ◌+◌, ◌≡◌, refl, true, false, Option, none, some, List, [], ◌∷◌, ◌==◌, if◌then◌else◌,
  arith,
}
use riscv_os.Process.{
  ProcState, Proc, Kernel, TrapFrame, empty_proc, runnable, running, zombie, proc_at, reg_a0,
  reg_a7,
}
use riscv_os.Traps.{World, no_effects}
use riscv_os.Traps.Handler.{TrapEnd, stuck, save_frame, trap_handler}
use riscv_os.Traps.Invariant.{Numbered, IsKernel}
use riscv_os.Scheduler.{yield}
use riscv_os.Scheduler.Running.{OnlyRunning}
use riscv_os.Syscalls.{sys_exit, wait_interrupted}
use riscv_os.Traps.Reach.{kernel_of}
use riscv_os.Traps.Timer.{Resumed, trap_handler-Resumed}

-- `exit(3)`
abbrev frame : TrapFrame
frame = record {
  regs = λ r. if r == reg_a7 then 93 else if r == reg_a0 then 3 else 0;
  sp = 0x2000;
  epc = 0x1000000;
}

abbrev other_frame : TrapFrame
other_frame = record { regs = λ r. r; sp = 0x1ff0; epc = 0x1000000 }

abbrev proc_in : ℕ → ProcState → Proc
proc_in i s = record empty_proc { pid = i; state = s; tf = some frame }

-- Idle, the shell, a program that runs, and a child of the shell that has ended
abbrev table : List Proc
table =
    proc_in 0 runnable
    ∷ proc_in 2 runnable
    ∷ proc_in 3 running
    ∷ record (proc_in 4 zombie) { parent = some 1 }
    ∷ empty_proc
    ∷ empty_proc
    ∷ empty_proc
    ∷ empty_proc
    ∷ []

abbrev first : Kernel
first = record {
  procs = table;
  current = some 2;
  idle = 0;
  process_count = 4;
  g_startup = false;
  memory = record {
    word = λ _. 0;
    free_list = 0;
    next_paddr = 0x1000;
    g_free_pages = 0;
    alloc_table = [];
    alloc_table_count = 0;
  };
}

abbrev around : World
around = record {
  kernel_base = 0x8000000000;
  ram_end = 0x9000000000;
  user_return = 0x8000001000;
  old_frame = frame;
  table_fuel = 3;
  stack_top = 0x2000000;
  max_tracked = 16;
  archive = [];
  user = λ _. 0;
  input = [];
  base_epoch = some 0;
  ticks = 0;
  total_pages = 16;
}

table-OnlyRunning : OnlyRunning 2 table
table-OnlyRunning zero ne = refl
table-OnlyRunning (suc zero) ne = refl
table-OnlyRunning (suc (suc zero)) ne = absurd (ne refl)
table-OnlyRunning (suc (suc (suc zero))) ne = refl
table-OnlyRunning (suc (suc (suc (suc zero)))) ne = refl
table-OnlyRunning (suc (suc (suc (suc (suc zero))))) ne = refl
table-OnlyRunning (suc (suc (suc (suc (suc (suc zero)))))) ne = refl
table-OnlyRunning (suc (suc (suc (suc (suc (suc (suc zero))))))) ne = refl
table-OnlyRunning (suc (suc (suc (suc (suc (suc (suc (suc j)))))))) ne = refl

table-Numbered : Numbered table
table-Numbered zero ne = absurd (ne refl)
table-Numbered (suc zero) ne = refl
table-Numbered (suc (suc zero)) ne = refl
table-Numbered (suc (suc (suc zero))) ne = refl
table-Numbered (suc (suc (suc (suc zero)))) ne = absurd (ne refl)
table-Numbered (suc (suc (suc (suc (suc zero))))) ne = absurd (ne refl)
table-Numbered (suc (suc (suc (suc (suc (suc zero)))))) ne = absurd (ne refl)
table-Numbered (suc (suc (suc (suc (suc (suc (suc zero))))))) ne = absurd (ne refl)
table-Numbered (suc (suc (suc (suc (suc (suc (suc (suc j)))))))) ne = absurd (ne refl)

first-IsKernel : IsKernel first
first-IsKernel = record {
  size = refl;
  cur = 2;
  current = refl;
  in_table = omega arith;
  idle_in_table = omega arith;
  only = table-OnlyRunning;
  numbered = table-Numbered;
}

abbrev from_some : TrapEnd → Option TrapEnd → TrapEnd
from_some e none = e
from_some e (some e') = e'

-- The program exits, and then the timer's interrupt comes.
exited : TrapEnd
unfolding trap_handler
exited = from_some (stuck no_effects first) (trap_handler around true 8 0x1000000 frame first)

after_timer : TrapEnd
unfolding trap_handler exited
after_timer =
    from_some (stuck no_effects first)
      (trap_handler around true (0x8000000000000000 + 5) 0x1000004 frame (kernel_of exited))

-- The shell is the current process now.
after_timer-current : (kernel_of after_timer).current ≡ some 1
unfolding after_timer sys_exit yield
after_timer-current = refl

-- The shell calls `wait`, and the timer's interrupt comes when its child is no zombie any more but
-- still has its pid.
abbrev waiting_frame : TrapFrame
waiting_frame = record { regs = λ r. if r == reg_a7 then 260 else 0; sp = 0x2000; epc = 0x1000000 }

abbrev or_kernel : Kernel → Option Kernel → Kernel
or_kernel k none = k
or_kernel k (some k') = k'

shell_saved : Kernel
unfolding after_timer save_frame
shell_saved = or_kernel first (save_frame waiting_frame (kernel_of after_timer))

shell_waits : Kernel
unfolding shell_saved wait_interrupted
shell_waits = or_kernel first (wait_interrupted 3 0x2000000 16 1 shell_saved)

interrupted : TrapEnd
unfolding shell_waits trap_handler
interrupted =
    from_some (stuck no_effects first)
      (trap_handler around true (0x8000000000000000 + 5) 0x8000002000 other_frame shell_waits)

-- The child has its pid, and idle is the current process.
interrupted-child : (proc_at (kernel_of interrupted).procs 3).pid ≡ 4
unfolding interrupted shell_waits shell_saved after_timer exited trap_handler wait_interrupted
    sys_exit yield save_frame riscv_os.Teardown.freeing
interrupted-child = refl

interrupted-current : (kernel_of interrupted).current ≡ some 0
unfolding interrupted shell_waits shell_saved after_timer exited trap_handler wait_interrupted
    sys_exit yield save_frame riscv_os.Teardown.freeing
interrupted-current = refl

trap_handler-Resumed_example :
    (e : TrapEnd) × (trap_handler around false (0x8000000000000000 + 5) 0x1000000 other_frame first
      ≡ some e)
    × Resumed first other_frame 0x1000000 2 e
trap_handler-Resumed_example =
    trap_handler-Resumed around false (0x8000000000000000 + 5) 0x1000000 other_frame frame first 2
      first-IsKernel refl refl refl
