-- ===== src/Scheduler/Running.antt =====
-- kernel/scheduler.c: at most the current process is running.
use riscv_os.Prelude.{
  ℕ, ◌<◌, ◌≡◌, refl, ap, sym, ◌∙◌, ◌≢◌, Bool, true, false, some, List, ◌==◌, length, Bool-cases,
  inl, inr, ==→eq, ==_false→ne, subst,
}
use riscv_os.Process.{Proc, Kernel, ProcState, runnable, running, proc_at, is_runnable, is_running}
use riscv_os.Process.Table.{proc_at-set_proc, proc_at-set_proc_ne, length-set_proc}
use riscv_os.Scheduler.{
  with_state, run_to_ready, ready_to_run, switch_to, or_idle, pick_next, yield_from, yield,
}

-- No process but the current one is running.
abbrev pub OnlyRunning : ℕ → List Proc → Type 0
OnlyRunning cur ps = (j : ℕ) → j ≢ cur → is_running (proc_at ps j).state ≡ false

with_state-other :
    (ps : List Proc) (i j : ℕ) (s : ProcState)
    → i ≢ j
    → proc_at (with_state ps i s) j ≡ proc_at ps j
with_state-other ps i j s ne = proc_at-set_proc_ne ps i j _ ne

with_state_self :
    (ps : List Proc) (i : ℕ) (s : ProcState)
    → i < length ps
    → (proc_at (with_state ps i s) i).state ≡ s
with_state_self ps i s h = ap (λ p. p.state) (proc_at-set_proc ps i _ h)

-- Once the current process is made ready no process is running.
run_to_ready-none :
    (ps : List Proc) (cur : ℕ)
    → cur < length ps
    → OnlyRunning cur ps
    → (j : ℕ) → is_running (proc_at (run_to_ready ps cur) j).state ≡ false
run_to_ready-none ps cur h only j = elim (Bool-cases (is_running (proc_at ps cur).state)) [
  | inl e ↦ rw e (elim (Bool-cases (cur == j)) [
    | inl same ↦
        subst (λ k. is_running (proc_at (with_state ps cur runnable) k).state ≡ false)
          (==→eq cur j same) (ap is_running (with_state_self ps cur runnable h))
    | inr differ ↦
        let ne = ==_false→ne cur j differ in
        rw (with_state-other ps cur j runnable ne) (only j (λ q. ne (sym q)))
  ])
  | inr e ↦ rw e (elim (Bool-cases (cur == j)) [
    | inl same ↦ subst (λ k. is_running (proc_at ps k).state ≡ false) (==→eq cur j same) e
    | inr differ ↦ only j (λ q. ==_false→ne cur j differ (sym q))
  ])
]

ready_to_run-only :
    (ps : List Proc) (next : ℕ)
    → ((j : ℕ) → is_running (proc_at ps j).state ≡ false)
    → OnlyRunning next (ready_to_run ps next)
ready_to_run-only ps next none_running j ne =
    elim (Bool-cases (is_runnable (proc_at ps next).state)) [
      | inl e ↦ rw (e, with_state-other ps next j running (λ q. ne (sym q))) (none_running j)
      | inr e ↦ rw e (none_running j)
    ]

pub length-run_to_ready : (ps : List Proc) (i : ℕ) → length (run_to_ready ps i) ≡ length ps
length-run_to_ready ps i = elim (Bool-cases (is_running (proc_at ps i).state)) [
  | inl e ↦ rw e (length-set_proc ps i _)
  | inr e ↦ rw e
]

-- What `yield` does: the next process is the choice of the loop, or idle; only it can be running;
-- and where that is the process itself, no process is marked as running when it goes on.
pub record Yielded (k : Kernel) (cur : ℕ) (k' : Kernel) (switched : Bool) : Type 0 where
  pub next : ℕ
  pub choice : next ≡ or_idle k.idle (pick_next k.process_count cur (run_to_ready k.procs cur))
  pub current : k'.current ≡ some next
  pub only : OnlyRunning next k'.procs
  pub stays : switched ≡ false → (next ≡ cur) × (is_running (proc_at k'.procs cur).state ≡ false)
  pub leaves : switched ≡ true → next ≢ cur

pub switch_to-Yielded :
    (k : Kernel) (cur next : ℕ)
    → k.current ≡ some cur
    → cur < length k.procs
    → OnlyRunning cur k.procs
    → next ≡ or_idle k.idle (pick_next k.process_count cur (run_to_ready k.procs cur))
    → Yielded k cur
        (switch_to cur next (record k { procs = run_to_ready k.procs cur })).0
        (switch_to cur next (record k { procs = run_to_ready k.procs cur })).1
unfolding switch_to
switch_to-Yielded k cur next ec h only choice =
    let ready = run_to_ready-none k.procs cur h only in
    let again =
      run_to_ready-none (run_to_ready k.procs cur) cur
        (subst (λ n. cur < n) (sym (length-run_to_ready k.procs cur)) h) (λ j ne. ready j) in
    elim (Bool-cases (next == cur)) [
      | inl same ↦ rw same (record {
        next = next;
        choice = choice;
        current = ec ∙ ap some (sym (==→eq next cur same));
        only = λ j ne. ready j;
        stays = λ s. (==→eq next cur same, ready cur);
        leaves = λ s. cc;
      })
      | inr differ ↦ rw differ (record {
        next = next;
        choice = choice;
        current = refl;
        only = ready_to_run-only _ next again;
        stays = λ s. cc;
        leaves = λ s. ==_false→ne next cur differ;
      })
    ]

-- Where the current process is in the table and no other process is running, `yield` ends, again
-- only the process that is current then may be running, and it does what `Yielded` says of the
-- choice and of the switch.
pub yield-Yielded :
    (k : Kernel) (cur : ℕ)
    → k.current ≡ some cur
    → cur < length k.procs
    → OnlyRunning cur k.procs
    → (k' : Kernel) × (switched : Bool) × (yield k ≡ some (k', switched))
      × Yielded k cur k' switched
unfolding yield yield_from
yield-Yielded k cur ec h only =
    ((yield_from cur k).0, (yield_from cur k).1, rw ec, switch_to-Yielded k cur _ ec h only refl)
