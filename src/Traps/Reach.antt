-- ===== src/Traps/Reach.antt =====
-- kernel/trap.c: all states of the kernel that traps lead to.
use riscv_os.Prelude.{ℕ, ◌≡◌, Bool, true, some}
use riscv_os.Process.{Kernel, TrapFrame, reg_a7}
use riscv_os.Syscalls.{wait_interrupted}
use riscv_os.Traps.{World}
use riscv_os.Traps.Handler.{TrapEnd, back, stuck, away, save_frame, is_timer, trap_handler}

-- The kernel at the end of a trap.
abbrev pub kernel_of : TrapEnd → Kernel
kernel_of (back f pc e k) = k
kernel_of (stuck e k) = k
kernel_of (away e k) = k

-- The system call of `sys_wait`
abbrev wait_number : ℕ
wait_number = 260

-- The kernels that traps lead to from a first one. What surrounds a trap may be anything. The timer's
-- interrupt can come in a program or inside `sys_wait`, once `free_proc` has enabled interrupts: the
-- frame of the program was saved then, and the interrupt has a frame of its own. What is left of the
-- interrupted `sys_wait`, whose stack the interrupt has overwritten, is no step.
pub data Reaches (start : Kernel) : Kernel → Type 0 where
  here : Reaches start start
  trap :
      {k : Kernel} (w : World) (own : Bool) (scause pc : ℕ) (f : TrapFrame) (e : TrapEnd)
      → Reaches start k
      → trap_handler w own scause pc f k ≡ some e
      → Reaches start (kernel_of e)
  trap_in_wait :
      {k k' k'' : Kernel} (w : World) (own : Bool) (scause pc n : ℕ) (f f' : TrapFrame)
      (e : TrapEnd)
      → Reaches start k
      → f.regs reg_a7 ≡ wait_number
      → save_frame f k ≡ some k'
      → wait_interrupted w.table_fuel w.stack_top w.max_tracked n k' ≡ some k''
      → is_timer scause ≡ true
      → trap_handler w own scause pc f' k'' ≡ some e
      → Reaches start (kernel_of e)
