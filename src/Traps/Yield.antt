-- ===== src/Traps/Yield.antt =====
-- kernel/scheduler.c: `yield` keeps what holds of the kernel's variables.
use riscv_os.Prelude.{
  ℕ, ◌+◌, ◌<◌, ◌≡◌, refl, sym, subst, ◌∙◌, some, List, [], ◌∷◌, ◌==◌, ◌>>=◌, length, arith,
  Bool-cases, Option-cases, inl, inr,
}
use riscv_os.Process.{
  Proc, Kernel, ProcState, runnable, running, procs_max, proc_at, is_running, is_runnable,
}
use riscv_os.Process.Table.{length-set_proc}
use riscv_os.Scheduler.{
  with_state, run_to_ready, ready_to_run, switch_to, or_idle, pick, pick_next, yield_from, yield,
  is_candidate,
}
use riscv_os.Scheduler.Running.{switch_to-Yielded, length-run_to_ready}
use riscv_os.Traps.Invariant.{OnSome, on, Numbered, set-Numbered, IsKernel, First}

with_state-Numbered :
    (ps : List Proc) (i : ℕ) (s : ProcState)
    → i < length ps
    → Numbered ps
    → Numbered (with_state ps i s)
with_state-Numbered ps i s hi num = set-Numbered ps i _ hi num (num i)

run_to_ready-Numbered :
    (ps : List Proc) (i : ℕ) → i < length ps → Numbered ps → Numbered (run_to_ready ps i)
run_to_ready-Numbered ps i hi num = elim (Bool-cases (is_running (proc_at ps i).state)) [
  | inl e ↦ rw e (with_state-Numbered ps i runnable hi num)
  | inr e ↦ rw e num
]

ready_to_run-Numbered :
    (ps : List Proc) (i : ℕ) → i < length ps → Numbered ps → Numbered (ready_to_run ps i)
ready_to_run-Numbered ps i hi num = elim (Bool-cases (is_runnable (proc_at ps i).state)) [
  | inl e ↦ rw e (with_state-Numbered ps i running hi num)
  | inr e ↦ rw e num
]

length-ready_to_run : (ps : List Proc) (i : ℕ) → length (ready_to_run ps i) ≡ length ps
length-ready_to_run ps i = elim (Bool-cases (is_runnable (proc_at ps i).state)) [
  | inl e ↦ rw e (length-set_proc ps i _)
  | inr e ↦ rw e
]

pick-lt :
    (count cur i : ℕ) (ps : List Proc) (j : ℕ) → pick count cur i ps ≡ some j → j < i + length ps
unfolding pick
pick-lt count cur i [] j h = cc
pick-lt count cur i (p ∷ ps) j h = elim (Bool-cases (is_candidate count cur i p)) [
  | inl e ↦ let t : some i ≡ some j = rw e at h in ground arith
  | inr e ↦ let r = pick-lt count cur (i + 1) ps j (rw e at h) in omega (arith, r)
]

next-lt :
    (idle count cur n : ℕ) (ps : List Proc)
    → idle < n
    → length ps ≡ n
    → or_idle idle (pick_next count cur ps) < n
unfolding pick_next
next-lt idle count cur n [] hi hn = hi
next-lt idle count cur n (p ∷ ps) hi hn = elim (Option-cases (pick count cur 1 ps)) [
  | inl e ↦ rw e hi
  | inr (j, e) ↦ rw e (let r = pick-lt count cur 1 ps j e in omega (arith, r))
]

switch_to-size :
    (cur next : ℕ) (k : Kernel) → length (switch_to cur next k).0.procs ≡ length k.procs
unfolding switch_to
switch_to-size cur next k = elim (Bool-cases (next == cur)) [
  | inl e ↦ rw e
  | inr e ↦
      rw e (length-ready_to_run (run_to_ready k.procs cur) next ∙ length-run_to_ready k.procs cur)
]

switch_to-idle : (cur next : ℕ) (k : Kernel) → (switch_to cur next k).0.idle ≡ k.idle
unfolding switch_to
switch_to-idle cur next k = elim (Bool-cases (next == cur)) [ inl e ↦ rw e | inr e ↦ rw e ]

switch_to-Numbered :
    (cur next : ℕ) (k : Kernel)
    → cur < length k.procs
    → next < length k.procs
    → Numbered k.procs
    → Numbered (switch_to cur next k).0.procs
unfolding switch_to
switch_to-Numbered cur next k hc hn num = elim (Bool-cases (next == cur)) [
  | inl e ↦ rw e num
  | inr e ↦ rw e (
      ready_to_run-Numbered (run_to_ready k.procs cur) next
        (subst (λ n. next < n) (sym (length-run_to_ready k.procs cur)) hn)
        (run_to_ready-Numbered k.procs cur hc num))
]

-- The kernel with the current process made ready, and the next process.
abbrev readied : ℕ → Kernel → Kernel
readied cur k = record k { procs = run_to_ready k.procs cur }

abbrev next_of : ℕ → Kernel → ℕ
next_of cur k = or_idle k.idle (pick_next k.process_count cur (run_to_ready k.procs cur))

yield_from-IsKernel : (k : Kernel) (h : IsKernel k) → IsKernel (yield_from h.cur k).0
unfolding yield_from
yield_from-IsKernel k h =
    let size : length (run_to_ready k.procs h.cur) ≡ procs_max =
      length-run_to_ready k.procs h.cur ∙ h.size in
    let in_list : h.cur < length k.procs = subst (λ n. h.cur < n) (sym h.size) h.in_table in
    let bound =
      next-lt k.idle k.process_count h.cur procs_max (run_to_ready k.procs h.cur) h.idle_in_table
        size in
    let y = switch_to-Yielded k h.cur (next_of h.cur k) h.current in_list h.only refl in
    record {
      size = switch_to-size h.cur (next_of h.cur k) (readied h.cur k) ∙ size;
      cur = y.next;
      current = y.current;
      in_table = subst (λ n. n < procs_max) (sym y.choice) bound;
      idle_in_table =
          subst (λ n. n < procs_max)
            (sym (switch_to-idle h.cur (next_of h.cur k) (readied h.cur k))) h.idle_in_table;
      only = y.only;
      numbered =
          switch_to-Numbered h.cur (next_of h.cur k) (readied h.cur k)
            (subst (λ n. h.cur < n) (sym size) h.in_table)
            (subst (λ n. next_of h.cur k < n) (sym size) bound)
            (run_to_ready-Numbered k.procs h.cur in_list h.numbered);
    }

pub yield-IsKernel : (k : Kernel) → IsKernel k → OnSome First (yield k)
unfolding yield
yield-IsKernel k h =
    subst (λ o. OnSome First (o >>= λ cur. some (yield_from cur k))) (sym h.current)
      (on (yield_from-IsKernel k h))
