-- ===== src/Ipc.antt =====
-- kernel/syscall.c: `sys_ipc_send` and `sys_ipc_recv`, messages between processes. A buffer of the
-- caller is the list of the bytes from its address on. `none` is a PANIC, a null `current_proc` or
-- an access behind a buffer; the negative results are the values that the calls return.
pub mod Delivery
mod Tests
use riscv_os.Prelude.{
  ℕ, ◌+◌, ℤ, pos, negsuc, Bool, true, false, Option, none, some, List, ltb, leb, ◌==◌,
  if◌then◌else◌, ◌>>=◌, not,
}
use riscv_os.Text.{memcpy}
use riscv_os.Process.{
  IpcMessage, Proc, Kernel, proc_at, set_proc, procs_max, max_msg_size, get_proc_by_pid,
}

-- `dest_pid < 0 || dest_pid >= PROCS_MAX`
unfoldable pub is_refused : ℤ → Bool
is_refused (negsuc n) = true
is_refused (pos n) = leb procs_max n

-- The inbox of process `i` with the message of `sender` in it.
abbrev pub with_inbox : List Proc → ℕ → IpcMessage → List Proc
with_inbox ps i m = set_proc ps i (record (proc_at ps i) { inbox = m })

-- The end of `sys_ipc_send`, for the bytes of the inbox after the copy and for `current_proc`.
unfoldable pub put_message : Kernel → ℕ → ℕ → List ℕ → Option ℕ → Option (ℤ × Kernel)
put_message k dest size content none = none
put_message k dest size content (some cur) = some (
  pos 0,
  record k {
    procs = with_inbox k.procs dest (record {
      content = content;
      size = size;
      sender = (proc_at k.procs cur).pid;
      pending = true;
    });
  },
)

-- `sys_ipc_send` once the destination is found.
unfoldable pub deliver : Kernel → ℕ → List ℕ → ℕ → Option (ℤ × Kernel)
unfolding put_message
deliver k dest buf size =
    if ltb max_msg_size size
    then some (negsuc 1, k)
    else if (proc_at k.procs dest).inbox.pending
    then some (negsuc 1, k)
    else memcpy (proc_at k.procs dest).inbox.content buf size >>= λ content.
        put_message k dest size content k.current

unfoldable pub sys_ipc_send : Kernel → ℤ → List ℕ → ℕ → Option (ℤ × Kernel)
unfolding deliver is_refused
sys_ipc_send k dest_pid buf size =
    if is_refused dest_pid
    then some (negsuc 0, k)
    else elim (get_proc_by_pid dest_pid) [ none ↦ none | some dest ↦ deliver k dest buf size ]

-- What `sys_ipc_recv` returns and writes: the caller's buffer, and the sender if it is asked for.
pub record Received : Type 0 where
  pub result : ℤ
  pub buf : List ℕ
  pub sender_pid : Option ℕ
  pub kernel : Kernel

-- The last two lines of `sys_ipc_recv`.
unfoldable pub received_result : ℕ → ℤ
received_result n = if n == 1 then negsuc 0 else pos n

abbrev pub min_size : ℕ → ℕ → ℕ
min_size size max_size = if ltb max_size size then max_size else size

-- `sys_ipc_recv` of process `cur`, whose inbox is `msg`.
unfoldable pub receive : Kernel → ℕ → IpcMessage → List ℕ → ℕ → Bool → Option Received
unfolding received_result
receive k cur msg buf max_size wants_sender =
    if not msg.pending
    then some (record { result = negsuc 0; buf = buf; sender_pid = none; kernel = k })
    else memcpy buf msg.content (min_size msg.size max_size) >>= λ buf'. some (record {
      result = received_result (min_size msg.size max_size);
      buf = buf';
      sender_pid = if wants_sender then some msg.sender else none;
      kernel = record k { procs = with_inbox k.procs cur (record msg { pending = false }) };
    })

unfoldable pub sys_ipc_recv : Kernel → List ℕ → ℕ → Bool → Option Received
unfolding receive
sys_ipc_recv k buf max_size wants_sender =
    k.current >>= λ cur. receive k cur (proc_at k.procs cur).inbox buf max_size wants_sender
