-- ===== src/Traps/Handler.antt =====
-- kernel/trap.c: `trap_handler`. The frame that is handled is the one on the kernel's stack; a process
-- that did not come from `fork` keeps that very frame as its `tf`, which the argument `own` says.
use riscv_os.Prelude.{
  u64, ℕ, ◌+◌, ◌/◌, ◌%◌, ◌^◌, Bool, true, false, ◌&&◌, Option, none, some, ◌==◌, if◌then◌else◌,
  ◌>>=◌,
}
use riscv_os.Process.{Kernel, TrapFrame, reg_a0, set_reg, proc_at, set_proc}
use riscv_os.Scheduler.{yield}
use riscv_os.Traps.{
  World, Effects, no_effects, Outcome, result, restarted, spinning, switched, handle_syscall,
}

-- How a trap ends: back in the program that trapped, with the frame and with `sepc`; in a loop that
-- waits; or with another process on the CPU.
pub data TrapEnd : Type 0 where
  back : TrapFrame → ℕ → Effects → Kernel → TrapEnd
  stuck : Effects → Kernel → TrapEnd
  away : Effects → Kernel → TrapEnd

-- `memcpy(current_proc->tf, f, sizeof(trap_frame_t))`; a null `tf` cannot be written to.
unfoldable pub save_frame : TrapFrame → Kernel → Option Kernel
save_frame f k = k.current >>= λ cur. (proc_at k.procs cur).tf >>= λ old.
    some (record k { procs = set_proc k.procs cur (record (proc_at k.procs cur) { tf = some f }) })

-- Writes to the frame go to the process's `tf` too if that is the same frame.
abbrev pub keep : Bool → TrapFrame → Kernel → Kernel
keep false f k = k
keep true f k = elim (save_frame f k) [ none ↦ k | some k' ↦ k' ]

abbrev pub set_a0 : ℕ → TrapFrame → TrapFrame
set_a0 v f = record f { regs = set_reg f.regs reg_a0 v }

-- The frame of the current process
abbrev pub frame_of : TrapFrame → Kernel → TrapFrame
frame_of f k = elim (k.current >>= λ cur. (proc_at k.procs cur).tf) [ none ↦ f | some tf ↦ tf ]

unfoldable pub end_syscall : Bool → TrapFrame → ℕ → Outcome → TrapEnd
end_syscall own f pc (result v e k) =
    let f' : TrapFrame = set_a0 v f in back f' (u64 (pc + 4)) e (keep own f' k)
end_syscall own f pc (restarted v e k) =
    let f' : TrapFrame = set_a0 v (frame_of f k) in back f' (u64 (pc + 4)) e (keep true f' k)
end_syscall own f pc (spinning e k) = stuck e k
end_syscall own f pc (switched e k) = away e k

-- The timer's interrupt: bit 63 of `scause`, and 5 in its low byte.
abbrev pub is_timer : ℕ → Bool
is_timer scause = (scause / 2 ^ 63 % 2 == 1) && scause % 256 == 5

abbrev pub end_timer : TrapFrame → ℕ → Kernel × Bool → TrapEnd
end_timer f pc (k, b) = if b then away no_effects k else back f pc no_effects k

unfoldable pub trap_handler :
    World → Bool → (scause user_pc : ℕ) → TrapFrame → Kernel → Option TrapEnd
unfolding save_frame handle_syscall end_syscall
trap_handler w own scause user_pc f k = save_frame f k >>= λ k'.
    if is_timer scause
    then (yield k' >>= λ r. some (end_timer f user_pc r))
    else if scause == 8
    then (handle_syscall w f k' >>= λ o. some (end_syscall own f user_pc o))
    else none
