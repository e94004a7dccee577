-- ===== src/Scheduler.antt =====
-- kernel/scheduler.c: `yield`. The switch of the address space and the jump to the new process are
-- the change of `current`; `switched` says that control does not come back to the caller.
pub mod Pick
pub mod Running
mod Tests
use riscv_os.Prelude.{
  ℕ, zero, suc, ◌+◌, Bool, true, false, not, ◌||◌, ◌&&◌, Option, none, some, List, [], ◌∷◌, ◌==◌,
  if◌then◌else◌, ◌>>=◌,
}
use riscv_os.Process.{
  Proc, Kernel, ProcState, runnable, running, proc_at, set_proc, is_runnable, is_running,
}

abbrev pub with_state : List Proc → ℕ → ProcState → List Proc
with_state ps i s = set_proc ps i (record (proc_at ps i) { state = s })

-- The tests of the loop at index `i`: an entry that is skipped, or one that is next.
unfoldable pub is_candidate : ℕ → ℕ → ℕ → Proc → Bool
is_candidate count cur i p =
    not (p.pid == 0)
    && ((is_runnable p.state && count == 2) || (is_runnable p.state && not (i == cur)))

-- The loop from index `i`.
unfoldable pub pick : ℕ → ℕ → ℕ → List Proc → Option ℕ
unfolding is_candidate
pick count cur i [] = none
pick count cur i (p ∷ ps) = if is_candidate count cur i p then some i else pick count cur (i + 1) ps

-- The loop of `yield` begins behind the idle process.
unfoldable pub pick_next : ℕ → ℕ → List Proc → Option ℕ
unfolding pick
pick_next count cur [] = none
pick_next count cur (p ∷ ps) = pick count cur 1 ps

abbrev pub run_to_ready : List Proc → ℕ → List Proc
run_to_ready ps i = if is_running (proc_at ps i).state then with_state ps i runnable else ps

abbrev pub ready_to_run : List Proc → ℕ → List Proc
ready_to_run ps i = if is_runnable (proc_at ps i).state then with_state ps i running else ps

-- The end of `yield`, once the next process is known.
unfoldable pub switch_to : ℕ → ℕ → Kernel → Kernel × Bool
switch_to cur next k = if next == cur then (k, false) else (
  record k {
    procs = ready_to_run (run_to_ready k.procs cur) next;
    current = some next;
    g_startup = false;
  },
  true,
)

abbrev pub or_idle : ℕ → Option ℕ → ℕ
or_idle idle none = idle
or_idle idle (some i) = i

unfoldable pub yield_from : ℕ → Kernel → Kernel × Bool
unfolding pick_next switch_to
yield_from cur k =
    let ps = run_to_ready k.procs cur in
    switch_to cur (or_idle k.idle (pick_next k.process_count cur ps)) (record k { procs = ps })

-- `none` is a null `current_proc`.
unfoldable pub yield : Kernel → Option (Kernel × Bool)
unfolding yield_from
yield k = k.current >>= λ cur. some (yield_from cur k)
