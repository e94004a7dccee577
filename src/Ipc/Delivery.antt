-- ===== src/Ipc/Delivery.antt =====
-- kernel/syscall.c: a message that is sent is the one that is received.
use riscv_os.Prelude.{
  ℕ, ◌+◌, ◌≤◌, ◌<◌, ◌≡◌, refl, ap, sym, subst, ◌∙◌, ◌≢◌, ℤ, pos, negsuc, Bool, true, false, some,
  List, ◌++◌, leb, le→ltb_false, ◌==◌, if◌then◌else◌, arith, length, drop, take-append, take-length,
  length-append,
}
use riscv_os.Text.{memcpy}
use riscv_os.Text.Copy.{memcpy-take}
use riscv_os.Process.{Proc, Kernel, IpcMessage, proc_at, procs_max, max_msg_size}
use riscv_os.Process.Table.{proc_at-set_proc, length-set_proc, get_proc_by_pid-suc}
use riscv_os.Ipc.{
  is_refused, with_inbox, deliver, put_message, sys_ipc_send, Received, received_result, receive,
  sys_ipc_recv,
}

-- What `deliver` puts into the inbox.
abbrev pub sent : Kernel → ℕ → ℕ → List ℕ → IpcMessage
sent k dest cur msg = record {
  content = msg ++ drop (length msg) (proc_at k.procs dest).inbox.content;
  size = length msg;
  sender = (proc_at k.procs cur).pid;
  pending = true;
}

deliver-sent :
    (k : Kernel) (dest cur : ℕ) (msg : List ℕ)
    → k.current ≡ some cur
    → (proc_at k.procs dest).inbox.pending ≡ false
    → length (proc_at k.procs dest).inbox.content ≡ max_msg_size
    → length msg ≤ max_msg_size
    → deliver k dest msg (length msg)
      ≡ some (pos 0, record k { procs = with_inbox k.procs dest (sent k dest cur msg) })
unfolding deliver put_message
deliver-sent k dest cur msg ec free full short =
    let test = le→ltb_false max_msg_size (length msg) short in
    let copied : memcpy (proc_at k.procs dest).inbox.content msg (length msg)
        ≡ some (msg ++ drop (length msg) (proc_at k.procs dest).inbox.content) =
      memcpy-take (proc_at k.procs dest).inbox.content msg (length msg) (omega arith) (omega arith)
      ∙ rw (take-length msg) in
    rw (test, free, deliver) (rw copied (ap (put_message k dest (length msg) _) ec))

sys_ipc_send-deliver :
    (k : Kernel) (i : ℕ) (buf : List ℕ) (size : ℕ)
    → i + 1 < procs_max
    → sys_ipc_send k (pos (i + 1)) buf size ≡ deliver k i buf size
unfolding sys_ipc_send is_refused
sys_ipc_send-deliver k i buf size h =
    let test : leb procs_max (i + 1) ≡ false = ground arith in
    rw (test, get_proc_by_pid-suc i (omega arith), sys_ipc_send)

-- A message of `from`, with what stands in the inbox behind it.
abbrev pub message : List ℕ → List ℕ → ℕ → Bool → IpcMessage
message msg rest from b = record {
  content = msg ++ rest;
  size = length msg;
  sender = from;
  pending = b;
}

-- `receive` of a message that is not longer than the buffer.
receive-message :
    (k : Kernel) (cur from : ℕ) (msg rest out : List ℕ)
    → length msg ≤ length out
    → receive k cur (message msg rest from true) out (length out) true
      ≡ some (record {
        result = received_result (length msg);
        buf = msg ++ drop (length msg) out;
        sender_pid = some from;
        kernel = record k { procs = with_inbox k.procs cur (message msg rest from false) };
      })
unfolding receive
receive-message k cur from msg rest out fits =
    let test = le→ltb_false (length out) (length msg) fits in
    let copied : memcpy out (msg ++ rest) (length msg) ≡ some (msg ++ drop (length msg) out) =
      memcpy-take out (msg ++ rest) (length msg) (omega arith)
        (omega (arith, length-append msg rest))
      ∙ rw (take-append msg rest) in
    rw test (rw copied)

-- A message of at most 256 bytes that is sent to an empty inbox of a process with a pid below
-- PROCS_MAX, and that the process receives into a buffer that is long enough: the call that sends
-- it returns 0, and the buffer then begins with the message's bytes and is otherwise as before, the
-- sender's pid is reported, the result is the message's length, or -1 for one byte, and the inbox
-- is empty again.
pub sys_ipc_recv-sys_ipc_send :
    (k : Kernel) (i cur : ℕ) (msg out : List ℕ)
    → k.current ≡ some cur
    → i < length k.procs
    → i + 1 < procs_max
    → (proc_at k.procs i).inbox.pending ≡ false
    → length (proc_at k.procs i).inbox.content ≡ max_msg_size
    → length msg ≤ max_msg_size
    → length msg ≤ length out
    → (k' : Kernel) × (r : Received) × (sys_ipc_send k (pos (i + 1)) msg (length msg)
        ≡ some (pos 0, k'))
      × (sys_ipc_recv (record k' { current = some i }) out (length out) true ≡ some r)
      × (r.result ≡ (if length msg == 1 then negsuc 0 else pos (length msg)))
      × (r.buf ≡ msg ++ drop (length msg) out)
      × (r.sender_pid ≡ some (proc_at k.procs cur).pid)
      × ((proc_at r.kernel.procs i).inbox.pending ≡ false)
unfolding sys_ipc_recv received_result
sys_ipc_recv-sys_ipc_send k i cur msg out ec hi hp free full short fits =
    let ps : List Proc = with_inbox k.procs i (sent k i cur msg) in
    let found =
      proc_at-set_proc k.procs i (record (proc_at k.procs i) { inbox = sent k i cur msg }) hi in
    (
      record k { procs = ps },
      _,
      sys_ipc_send-deliver k i msg (length msg) hp ∙ deliver-sent k i cur msg ec free full short,
      ap (λ q. receive (record k { procs = ps; current = some i }) i q.inbox out (length out) true)
            found
          ∙ receive-message (record k { procs = ps; current = some i }) i _ msg _ out fits,
      refl,
      refl,
      refl,
      ap (λ q. q.inbox.pending)
          (proc_at-set_proc ps i _ (subst (λ n. i < n) (sym (length-set_proc k.procs i _)) hi)),
    )

-- A call of `sys_ipc_send` that does not return 0 leaves the kernel as it was.
pub sys_ipc_send-error :
    (k k' : Kernel) (dest_pid z : ℤ) (buf : List ℕ) (size : ℕ)
    → sys_ipc_send k dest_pid buf size ≡ some (z, k')
    → z ≢ pos 0
    → k' ≡ k
unfolding sys_ipc_send deliver put_message
sys_ipc_send-error k k' dest_pid z buf size e ne = ground arith
