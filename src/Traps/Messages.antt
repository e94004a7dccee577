-- ===== src/Traps/Messages.antt =====
-- kernel/syscall.c: the calls for messages and the console keep what holds of the kernel's variables.
use riscv_os.Prelude.{
  ℕ, zero, suc, ◌%◌, ◌<◌, ◌≡◌, refl, subst, ℤ, pos, negsuc, Bool, not, ◌||◌, Option, none, some,
  List, [], ◌∷◌, ◌++◌, ltb, ◌==◌, arith, Option-cases, inl, inr,
}
use riscv_os.Process.{Kernel, IpcMessage, procs_max, max_msg_size, proc_at, get_proc_by_pid}
use riscv_os.Scheduler.{yield}
use riscv_os.Text.{memcpy}
use riscv_os.Ipc.{
  is_refused, sys_ipc_send, deliver, put_message, sys_ipc_recv, Received, receive, with_inbox,
  min_size,
}
use riscv_os.Syscalls.Console.{ReadEnd, returned, waiting, left, read_loop, sys_read}
use riscv_os.Traps.Invariant.{
  OnSome, on, stopped, bind-OnSome, if-OnSome, IsKernel, Second, kept-IsKernel,
}
use riscv_os.Traps.Yield.{yield-IsKernel}
use riscv_os.Traps.Calls.{result_of}

-- A new message in the inbox of a process of the table.
inbox-IsKernel :
    (k : Kernel) (i : ℕ) (m : IpcMessage)
    → i < procs_max
    → IsKernel k
    → IsKernel (record k { procs = with_inbox k.procs i m })
inbox-IsKernel k i m hi h = kept-IsKernel k h i _ k.memory k.process_count hi refl refl

put_message-IsKernel :
    (k : Kernel) (dest size : ℕ) (content : List ℕ) (cur : Option ℕ)
    → dest < procs_max
    → IsKernel k
    → OnSome Second (put_message k dest size content cur)
unfolding put_message
put_message-IsKernel k dest size content none hd h = stopped
put_message-IsKernel k dest size content (some cur) hd h = on (inbox-IsKernel k dest _ hd h)

deliver-IsKernel :
    (k : Kernel) (dest : ℕ) (buf : List ℕ) (size : ℕ)
    → dest < procs_max
    → IsKernel k
    → OnSome Second (deliver k dest buf size)
unfolding deliver
deliver-IsKernel k dest buf size hd h = if-OnSome (ltb max_msg_size size) _ _ (on h) (
    if-OnSome (proc_at k.procs dest).inbox.pending _ _ (on h) (
      bind-OnSome (memcpy (proc_at k.procs dest).inbox.content buf size) _
        (λ content e. put_message-IsKernel k dest size content k.current hd h)))

get_proc_by_pid-lt : (pid : ℤ) (i : ℕ) → get_proc_by_pid pid ≡ some i → i < procs_max
unfolding get_proc_by_pid
get_proc_by_pid-lt (negsuc n) i h = cc
get_proc_by_pid-lt (pos zero) i h = cc
get_proc_by_pid-lt (pos (suc n)) i h = ground arith

pub sys_ipc_send-IsKernel :
    (k : Kernel) (pid : ℤ) (buf : List ℕ) (size : ℕ)
    → IsKernel k
    → OnSome Second (sys_ipc_send k pid buf size)
unfolding sys_ipc_send
sys_ipc_send-IsKernel k pid buf size h =
    if-OnSome (is_refused pid) _ _ (on h) (elim (Option-cases (get_proc_by_pid pid)) [
      | inl e ↦ rw e stopped
      | inr (i, e) ↦ rw e (deliver-IsKernel k i buf size (get_proc_by_pid-lt pid i e) h)
    ])

abbrev pub ReceivedKernel : Received → Type 0
ReceivedKernel r = IsKernel r.kernel

pub sys_ipc_recv-IsKernel :
    (k : Kernel) (buf : List ℕ) (max_size : ℕ) (wants_sender : Bool)
    → IsKernel k
    → OnSome ReceivedKernel (sys_ipc_recv k buf max_size wants_sender)
unfolding sys_ipc_recv receive
sys_ipc_recv-IsKernel k buf max_size wants_sender h = bind-OnSome k.current _ (λ cur ec.
    let msg = (proc_at k.procs cur).inbox in
    let here : cur < procs_max =
      let same : h.cur ≡ cur = cc in subst (λ i. i < procs_max) same h.in_table in
    if-OnSome (not msg.pending) _ _ (on h) (
      bind-OnSome (memcpy buf msg.content (min_size msg.size max_size)) _
        (λ buf' e. on (inbox-IsKernel k cur _ here h))))

abbrev pub ReadKernel : ReadEnd → Type 0
ReadKernel (returned d bytes k) = IsKernel k
ReadKernel (waiting bytes k) = IsKernel k
ReadKernel (left bytes k) = IsKernel k

read_loop-IsKernel :
    (input : List (Option ℕ)) (n : ℕ) (got : List ℕ) (k : Kernel)
    → IsKernel k
    → OnSome ReadKernel (read_loop input n got k)
unfolding read_loop
read_loop-IsKernel input zero got k h = on h
read_loop-IsKernel [] (suc n) got k h = on h
read_loop-IsKernel (none ∷ input) (suc n) got k h = read_loop-IsKernel input (suc n) got k h
read_loop-IsKernel (some c ∷ input) (suc n) got k h = if-OnSome (c == 10) _ _ (on h) (
    bind-OnSome (yield k) _ (λ (k', switched) e.
      let h' = result_of e (yield-IsKernel k h) in
      if-OnSome switched _ _ (on h') (read_loop-IsKernel input n (got ++ (c % 256 ∷ [])) k' h')))

pub sys_read-IsKernel :
    (input : List (Option ℕ)) (fd buf len : ℕ) (k : Kernel)
    → IsKernel k
    → OnSome ReadKernel (sys_read input fd buf len k)
unfolding sys_read
sys_read-IsKernel input fd buf len k h =
    if-OnSome (not (fd == 0) || (buf == 0 || len == 0)) _ _ (on h)
      (read_loop-IsKernel input len [] k h)
