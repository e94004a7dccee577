-- ===== src/Ipc/Tests.antt =====
-- kernel/syscall.c: a message between two of three processes.
use riscv_os.Prelude.{
  ℕ, ◌+◌, ◌≡◌, refl, pos, negsuc, true, false, some, List, [], ◌∷◌, ◌++◌, ◌==◌, if◌then◌else◌,
  arith, length, drop, replicate,
}
use riscv_os.Frames.{Memory}
use riscv_os.Process.{Kernel, empty_proc, runnable, running, proc_at}
use riscv_os.Ipc.{sys_ipc_send, Received, sys_ipc_recv}
use riscv_os.Ipc.Delivery.{sys_ipc_recv-sys_ipc_send, sys_ipc_send-error}

abbrev no_memory : Memory
no_memory = record {
  word = λ _. 0;
  free_list = 0;
  next_paddr = 0x1000;
  g_free_pages = 0;
  alloc_table = [];
  alloc_table_count = 0;
}

-- The sender has pid 2, and the receiver pid 3.
abbrev two_talkers : Kernel
two_talkers = record {
  procs =
      (record empty_proc { pid = 1; state = runnable })
      ∷ (record empty_proc { pid = 2; state = running })
      ∷ (record empty_proc { pid = 3; state = runnable })
      ∷ [];
  current = some 1;
  idle = 0;
  process_count = 3;
  g_startup = false;
  memory = no_memory;
}

abbrev ping : List ℕ
ping = b'p' ∷ b'i' ∷ b'n' ∷ b'g' ∷ []

abbrev buffer : List ℕ
buffer = replicate 6 7

sys_ipc_recv-sys_ipc_send_example :
    (k' : Kernel) × (r : Received) × (sys_ipc_send two_talkers (pos (2 + 1)) ping (length ping)
      ≡ some (pos 0, k'))
    × (sys_ipc_recv (record k' { current = some 2 }) buffer (length buffer) true ≡ some r)
    × (r.result ≡ (if length ping == 1 then negsuc 0 else pos (length ping)))
    × (r.buf ≡ ping ++ drop (length ping) buffer)
    × (r.sender_pid ≡ some (proc_at two_talkers.procs 1).pid)
    × ((proc_at r.kernel.procs 2).inbox.pending ≡ false)
sys_ipc_recv-sys_ipc_send_example =
    sys_ipc_recv-sys_ipc_send two_talkers 2 1 ping buffer refl (omega arith) (omega arith) refl refl
      (omega arith) (omega arith)

-- Pid 8 is the last of the table, and is refused.
last_pid : sys_ipc_send two_talkers (pos 8) ping 4 ≡ some (negsuc 0, two_talkers)
unfolding sys_ipc_send
last_pid = refl

sys_ipc_send-error_example : two_talkers ≡ two_talkers
sys_ipc_send-error_example =
    sys_ipc_send-error two_talkers two_talkers (pos 8) (negsuc 0) ping 4 last_pid (λ e. cc)
