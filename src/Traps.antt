-- ===== src/Traps.antt =====
-- kernel/syscall.c and kernel/trap.c: `handle_syscall`, which picks the system call by its number;
-- Handler has `trap_handler`.
pub mod Handler
pub mod Invariant
pub mod Yield
pub mod Calls
pub mod Forked
pub mod Programs
pub mod Messages
pub mod Dispatch
pub mod Interrupted
pub mod Reach
pub mod Timer
mod Tests
use riscv_os.Prelude.{
  u64, ℕ, zero, suc, ◌+◌, ◌-◌, ◌*◌, ◌/◌, ◌%◌, ◌^◌, ℤ, pos, negsuc, Bool, true, false, not, ◌&&◌,
  Option, none, some, List, [], ◌∷◌, ◌++◌, ltb, ◌==◌, if◌then◌else◌, ◌>>=◌, length,
}
use riscv_os.Process.{
  Proc, Kernel, TrapFrame, reg_a0, reg_a7, set_reg, proc_at, set_proc, max_msg_size,
}
use riscv_os.Frames.{Memory}
use riscv_os.Scheduler.{yield}
use riscv_os.Uart.{uart_cls}
use riscv_os.Arguments.{Stored, Arguments}
use riscv_os.Archive.{tarfs_lookup}
use riscv_os.Ipc.{Received, sys_ipc_send, sys_ipc_recv}
use riscv_os.Syscalls.{Waited, reaped, yielded, wait_round, sys_sbrk, sys_fork, sys_exit}
use riscv_os.Syscalls.Copy.{le_bytes, sys_sysinfo, sys_time}
use riscv_os.Syscalls.Console.{
  ReadEnd, returned, waiting, left, sys_read, user_bytes, to_int, sys_write, sys_ps, sys_ls,
  sys_log,
}
use riscv_os.Syscalls.Exec.{ExecEnd, failed, replaced, sys_exec}

-- What surrounds a call: the linker's symbols, addresses of functions and of `tf_stack`, the
-- archive, the memory of the process that runs, its console input, and the clock.
pub record World : Type 0 where
  pub kernel_base : ℕ
  pub ram_end : ℕ
  pub user_return : ℕ
  pub old_frame : TrapFrame
  pub table_fuel : ℕ
  pub stack_top : ℕ
  pub max_tracked : ℕ
  pub archive : List ℕ
  pub user : ℕ → ℕ
  pub input : List (Option ℕ)
  pub base_epoch : Option ℕ
  pub ticks : ℕ
  pub total_pages : ℕ

-- What a call leaves beside the kernel's state: bytes for the console, and bytes that stand at virtual
-- addresses of the caller.
pub record Effects : Type 0 where
  pub output : List ℕ
  pub virtual : List Stored

abbrev pub no_effects : Effects
no_effects = record { output = []; virtual = [] }

-- How a call ends: with the value for a0; with a value for a0 in the frame of a new program, which
-- took the place of the one that is handled; in a loop that waits; or with another process on the CPU.
pub data Outcome : Type 0 where
  result : ℕ → Effects → Kernel → Outcome
  restarted : ℕ → Effects → Kernel → Outcome
  spinning : Effects → Kernel → Outcome
  switched : Effects → Kernel → Outcome

-- A result as the 64 bits of a0
abbrev pub to_register : ℤ → ℕ
to_register (pos n) = u64 n
to_register (negsuc n) = 2 ^ 64 - 1 - n

abbrev pub stored_at : ℕ → List ℕ → Effects
stored_at va bytes = record no_effects { virtual = record { address = va; bytes = bytes } ∷ [] }

abbrev pub int_bytes : ℤ → List ℕ
int_bytes d = le_bytes 4 (to_register d % 2 ^ 32)

-- Enough bytes of the caller's string for a comparison with any name of the archive.
abbrev pub user_text : World → ℕ → List ℕ
user_text w va = user_bytes w.user va (length w.archive + 256)

unfoldable pub end_read : ℕ → ReadEnd → Outcome
end_read buf (returned d bytes k) = result (to_register d) (stored_at buf bytes) k
end_read buf (waiting bytes k) = spinning (stored_at buf bytes) k
end_read buf (left bytes k) = switched (stored_at buf bytes) k

abbrev pub word_bytes : List ℕ → List ℕ
word_bytes [] = []
word_bytes (v ∷ vs) = le_bytes 8 v ++ word_bytes vs

abbrev pub exec_effects : Option Arguments → Effects
exec_effects none = no_effects
exec_effects (some a) = record no_effects {
  virtual = record { address = a.sp; bytes = word_bytes a.argv } ∷ a.strings;
}

unfoldable pub end_exec : ExecEnd → Outcome
end_exec (failed d k) = result (to_register d) no_effects k
end_exec (replaced a k b) =
    if b then switched (exec_effects a) k else restarted 0 (exec_effects a) k

-- `*status` is written if the caller wants it.
unfoldable pub end_wait : ℕ → Waited → Outcome
end_wait status (reaped pid code k) =
    result (to_register (pos pid))
      (if status == 0 then no_effects else stored_at status (int_bytes code)) k
end_wait status (yielded k b) = if b then switched no_effects k else spinning no_effects k

abbrev pub sender_stored : ℕ → Option ℕ → List Stored
sender_stored at none = []
sender_stored at (some pid) = record { address = at; bytes = le_bytes 4 pid } ∷ []

unfoldable pub end_receive : ℕ → ℕ → Received → Outcome
end_receive buf sender r =
    result (to_register r.result)
      (record no_effects {
        virtual = record { address = buf; bytes = r.buf } ∷ sender_stored sender r.sender_pid;
      })
      r.kernel

-- A yield inside a call that returns 0.
unfoldable pub end_yield : Kernel × Bool → Outcome
end_yield (k, b) = if b then switched no_effects k else result 0 no_effects k

abbrev pub printed : List ℕ → Kernel → Outcome
printed out k = result 0 (record no_effects { output = out }) k

abbrev pub given : Kernel → ℤ × Memory → Outcome
given k (d, m) = result (to_register d) no_effects (record k { memory = m })

-- The calls that only read the kernel's state or use the console, by their number.
unfoldable pub console_call : World → ℕ → (a0 a1 a2 : ℕ) → Kernel → Option Outcome
unfolding end_read
console_call w number a0 a1 a2 k =
    if number == 63
    then (sys_read w.input (a0 % 2 ^ 32) a1 a2 k >>= λ r. some (end_read a1 r))
    else if number == 64
    then (let (d, out) = sys_write w.user a0 a1 a2 in
        some (result (to_register d) (record no_effects { output = out }) k))
    else if number == 406
    then some (printed uart_cls k)
    else if number == 200
    then (sys_sysinfo w.kernel_base w.total_pages a0 k >>= λ r. some (given k r))
    else if number == 201
    then (sys_time w.kernel_base w.base_epoch w.ticks a0 k >>= λ r. some (given k r))
    else if number == 400
    then some (printed (a0 % 256 ∷ []) k)
    else if number == 404
    then (sys_ps k >>= λ out. some (printed out k))
    else if number == 405
    then (sys_ls (length w.archive) w.archive >>= λ out. some (printed out k))
    else if number == 407
    then (tarfs_lookup (length w.archive) w.archive (user_text w a0) >>= λ file.
        some (result (elim file [ none ↦ 0 | some f ↦ 1 ]) no_effects k))
    else if number == 501
    then (sys_log (if a0 == 0 then none else some (user_text w a0)) k >>= λ (d, out).
        some (result (to_register d) (record no_effects { output = out }) k))
    else none

-- A result with the kernel behind the call
abbrev pub with_result : ℤ × Kernel → Outcome
with_result (d, k) = result (to_register d) no_effects k

-- The calls for messages; a message has at most the bytes that are copied.
unfoldable pub message_call : World → ℕ → (a0 a1 a2 : ℕ) → Kernel → Option Outcome
unfolding end_receive console_call
message_call w number a0 a1 a2 k =
    if number == 402
    then (sys_ipc_send k (to_int a0)
          (user_bytes w.user a1 (if ltb max_msg_size a2 then max_msg_size else a2)) a2
        >>= λ r. some (with_result r))
    else if number == 403
    then (sys_ipc_recv k (user_bytes w.user a0 (if ltb max_msg_size a1 then max_msg_size else a1))
          a1 (not (a2 == 0))
        >>= λ r. some (end_receive a0 a2 r))
    else console_call w number a0 a1 a2 k

-- The calls that change processes and their memory.
unfoldable pub process_call : World → ℕ → (a0 a1 a2 : ℕ) → Kernel → Option Outcome
unfolding end_exec end_wait end_yield message_call
process_call w number a0 a1 a2 k =
    if number == 124
    then (yield k >>= λ r. some (end_yield r))
    else if number == 220
    then (sys_fork w.kernel_base w.ram_end k >>= λ r. some (with_result r))
    else if number == 221
    then (sys_exec w.kernel_base w.ram_end w.user_return w.old_frame w.table_fuel w.stack_top w.user
          (length w.archive) w.archive (user_text w a0) a1 (to_int a2) (a2 % 2 ^ 32) k
        >>= λ r. some (end_exec r))
    else if number == 93
    then (sys_exit (to_int a0) k >>= λ k'. some (result 0 no_effects k'))
    else if number == 260
    then (wait_round w.table_fuel w.stack_top w.max_tracked k >>= λ r. some (end_wait a0 r))
    else if number == 401
    then (sys_sbrk w.kernel_base w.ram_end a0 k >>= λ (old, k'). some (result old no_effects k'))
    else message_call w number a0 a1 a2 k

unfoldable pub handle_syscall : World → TrapFrame → Kernel → Option Outcome
unfolding process_call
handle_syscall w f k =
    process_call w (f.regs reg_a7) (f.regs reg_a0) (f.regs (reg_a0 + 1)) (f.regs (reg_a0 + 2)) k
