-- ===== src/Traps/Dispatch.antt =====
-- kernel/syscall.c: `handle_syscall` keeps what holds of the kernel's variables.
use riscv_os.Prelude.{
  ℕ, ◌%◌, ◌^◌, Bool, true, false, not, none, some, ltb, ◌==◌, if◌then◌else◌, length,
}
use riscv_os.Process.{Kernel, max_msg_size}
use riscv_os.Scheduler.{yield}
use riscv_os.Archive.{tarfs_lookup}
use riscv_os.Ipc.{sys_ipc_send, sys_ipc_recv}
use riscv_os.Syscalls.{Waited, reaped, yielded, wait_round, sys_sbrk, sys_fork, sys_exit}
use riscv_os.Syscalls.Copy.{sys_sysinfo, sys_time}
use riscv_os.Syscalls.Console.{
  ReadEnd, returned, waiting, left, sys_read, user_bytes, to_int, sys_ps, sys_ls, sys_log,
}
use riscv_os.Syscalls.Exec.{ExecEnd, failed, replaced, sys_exec}
use riscv_os.Traps.{
  World, Outcome, result, restarted, spinning, switched, user_text, end_read, end_exec, end_wait,
  end_receive, end_yield, console_call, message_call, process_call,
}
use riscv_os.Traps.Invariant.{
  OnSome, on, stopped, bind-OnSome, if-OnSome, IsKernel, First, memory-IsKernel,
}
use riscv_os.Traps.Yield.{yield-IsKernel}
use riscv_os.Traps.Calls.{
  result_of, sys_sbrk-IsKernel, sys_exit-IsKernel, WaitedKernel, wait_round-IsKernel,
}
use riscv_os.Traps.Forked.{sys_fork-IsKernel}
use riscv_os.Traps.Programs.{ExecKernel, sys_exec-IsKernel}
use riscv_os.Traps.Messages.{
  sys_ipc_send-IsKernel, sys_ipc_recv-IsKernel, ReadKernel, sys_read-IsKernel,
}

abbrev pub OutcomeKernel : Outcome → Type 0
OutcomeKernel (result v e k) = IsKernel k
OutcomeKernel (restarted v e k) = IsKernel k
OutcomeKernel (spinning e k) = IsKernel k
OutcomeKernel (switched e k) = IsKernel k

end_read-Kernel : (buf : ℕ) (r : ReadEnd) → ReadKernel r → OutcomeKernel (end_read buf r)
unfolding end_read
end_read-Kernel buf (returned d bytes k) h = h
end_read-Kernel buf (waiting bytes k) h = h
end_read-Kernel buf (left bytes k) h = h

either_kernel :
    (b : Bool) (x y : Outcome)
    → OutcomeKernel x
    → OutcomeKernel y
    → OutcomeKernel (if b then x else y)
either_kernel true x y hx hy = hx
either_kernel false x y hx hy = hy

end_exec-Kernel : (r : ExecEnd) → ExecKernel r → OutcomeKernel (end_exec r)
unfolding end_exec
end_exec-Kernel (failed d k) h = h
end_exec-Kernel (replaced a k b) h = either_kernel b _ _ h h

end_wait-Kernel : (status : ℕ) (r : Waited) → WaitedKernel r → OutcomeKernel (end_wait status r)
unfolding end_wait
end_wait-Kernel status (reaped pid code k) h = h
end_wait-Kernel status (yielded k b) h = either_kernel b _ _ h h

end_yield-Kernel : (r : Kernel × Bool) → First r → OutcomeKernel (end_yield r)
unfolding end_yield
end_yield-Kernel (k, b) h = either_kernel b _ _ h h

console_call-Kernel :
    (w : World) (number a0 a1 a2 : ℕ) (k : Kernel)
    → IsKernel k
    → OnSome OutcomeKernel (console_call w number a0 a1 a2 k)
unfolding console_call
console_call-Kernel w number a0 a1 a2 k h =
    if-OnSome (number == 63) _ _
      (bind-OnSome (sys_read w.input (a0 % 2 ^ 32) a1 a2 k) _ (λ r e.
        on
          (end_read-Kernel a1 r (result_of e (sys_read-IsKernel w.input (a0 % 2 ^ 32) a1 a2 k h)))))
      (if-OnSome (number == 64) _ _ (on h) (
        if-OnSome (number == 406) _ _ (on h) (
          if-OnSome (number == 200) _ _
            (bind-OnSome (sys_sysinfo w.kernel_base w.total_pages a0 k) _
              (λ r e. on (memory-IsKernel k h r.1)))
            (if-OnSome (number == 201) _ _
              (bind-OnSome (sys_time w.kernel_base w.base_epoch w.ticks a0 k) _
                (λ r e. on (memory-IsKernel k h r.1)))
              (if-OnSome (number == 400) _ _ (on h) (
                if-OnSome (number == 404) _ _ (bind-OnSome (sys_ps k) _ (λ r e. on h)) (
                  if-OnSome (number == 405) _ _
                    (bind-OnSome (sys_ls (length w.archive) w.archive) _ (λ r e. on h))
                    (if-OnSome (number == 407) _ _
                      (bind-OnSome (tarfs_lookup (length w.archive) w.archive (user_text w a0)) _
                        (λ r e. on h))
                      (if-OnSome (number == 501) _ _
                        (bind-OnSome (sys_log (if a0 == 0 then none else some (user_text w a0)) k) _
                          (λ r e. on h))
                        stopped)))))))))

message_call-Kernel :
    (w : World) (number a0 a1 a2 : ℕ) (k : Kernel)
    → IsKernel k
    → OnSome OutcomeKernel (message_call w number a0 a1 a2 k)
unfolding message_call end_receive
message_call-Kernel w number a0 a1 a2 k h =
    let sent = user_bytes w.user a1 (if ltb max_msg_size a2 then max_msg_size else a2) in
    let buf = user_bytes w.user a0 (if ltb max_msg_size a1 then max_msg_size else a1) in
    if-OnSome (number == 402) _ _
      (bind-OnSome (sys_ipc_send k (to_int a0) sent a2) _
        (λ r e. on (result_of e (sys_ipc_send-IsKernel k (to_int a0) sent a2 h))))
      (if-OnSome (number == 403) _ _
        (bind-OnSome (sys_ipc_recv k buf a1 (not (a2 == 0))) _
          (λ r e. on (result_of e (sys_ipc_recv-IsKernel k buf a1 (not (a2 == 0)) h))))
        (console_call-Kernel w number a0 a1 a2 k h))

pub process_call-Kernel :
    (w : World) (number a0 a1 a2 : ℕ) (k : Kernel)
    → IsKernel k
    → OnSome OutcomeKernel (process_call w number a0 a1 a2 k)
unfolding process_call
process_call-Kernel w number a0 a1 a2 k h =
    if-OnSome (number == 124) _ _
      (bind-OnSome (yield k) _ (λ r e. on (end_yield-Kernel r (result_of e (yield-IsKernel k h)))))
      (if-OnSome (number == 220) _ _
        (bind-OnSome (sys_fork w.kernel_base w.ram_end k) _
          (λ r e. on (result_of e (sys_fork-IsKernel w.kernel_base w.ram_end k h))))
        (if-OnSome (number == 221) _ _
          (bind-OnSome
            (sys_exec w.kernel_base w.ram_end w.user_return w.old_frame w.table_fuel w.stack_top
              w.user (length w.archive) w.archive (user_text w a0) a1 (to_int a2) (a2 % 2 ^ 32) k)
            _
            (λ r e. on (
              end_exec-Kernel r (
                result_of e (
                  sys_exec-IsKernel w.kernel_base w.ram_end w.user_return w.old_frame w.table_fuel
                    w.stack_top w.user (length w.archive) w.archive (user_text w a0) a1 (to_int a2)
                    (a2 % 2 ^ 32) k h)))))
          (if-OnSome (number == 93) _ _
            (bind-OnSome (sys_exit (to_int a0) k) _
              (λ r e. on (result_of e (sys_exit-IsKernel (to_int a0) k h))))
            (if-OnSome (number == 260) _ _
              (bind-OnSome (wait_round w.table_fuel w.stack_top w.max_tracked k) _ (λ r e. on (
                end_wait-Kernel a0 r
                  (result_of e (wait_round-IsKernel w.table_fuel w.stack_top w.max_tracked k h)))))
              (if-OnSome (number == 401) _ _
                (bind-OnSome (sys_sbrk w.kernel_base w.ram_end a0 k) _
                  (λ r e. on (result_of e (sys_sbrk-IsKernel w.kernel_base w.ram_end a0 k h))))
                (message_call-Kernel w number a0 a1 a2 k h))))))
