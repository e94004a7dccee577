-- ===== src/Traps/Timer.antt =====
-- kernel/trap.c: a program that the timer interrupts.
use riscv_os.Prelude.{
  arith, ℕ, zero, suc, ◌≡◌, refl, ap, ◌∙◌, ◌⊎◌, inl, inr, Bool, true, false, some, List, [], ◌∷◌,
  ◌==◌, if◌then◌else◌, Bool-cases, length, ◌<◌, ◌≢◌, sym, subst, Option,
}
use riscv_os.Process.{
  Proc, Kernel, TrapFrame, ProcState, proc_at, set_proc, is_running, is_runnable,
}
use riscv_os.Process.Table.{proc_at-set_proc, length-set_proc}
use riscv_os.Scheduler.{
  with_state, run_to_ready, ready_to_run, switch_to, or_idle, pick_next, yield_from, yield,
}
use riscv_os.Scheduler.Pick.{Chosen, pick_next-Chosen}
use riscv_os.Scheduler.Running.{OnlyRunning, Yielded, switch_to-Yielded, length-run_to_ready}
use riscv_os.Traps.{World, no_effects}
use riscv_os.Traps.Handler.{TrapEnd, back, away, save_frame, is_timer, end_timer, trap_handler}
use riscv_os.Traps.Invariant.{IsKernel, current-IsKernel}
use riscv_os.Traps.Reach.{kernel_of}

set_proc-tf :
    (ps : List Proc) (i j : ℕ) (q : Proc)
    → q.tf ≡ (proc_at ps i).tf
    → (proc_at (set_proc ps i q) j).tf ≡ (proc_at ps j).tf
set_proc-tf [] i j q h = refl
set_proc-tf (p ∷ ps) zero zero q h = h
set_proc-tf (p ∷ ps) zero (suc j) q h = refl
set_proc-tf (p ∷ ps) (suc i) zero q h = refl
set_proc-tf (p ∷ ps) (suc i) (suc j) q h = set_proc-tf ps i j q h

if-tf :
    (b : Bool) (ps : List Proc) (i j : ℕ) (s : ProcState)
    → (proc_at (if b then with_state ps i s else ps) j).tf ≡ (proc_at ps j).tf
if-tf true ps i j s = set_proc-tf ps i j _ refl
if-tf false ps i j s = refl

run_to_ready-tf :
    (ps : List Proc) (i j : ℕ) → (proc_at (run_to_ready ps i) j).tf ≡ (proc_at ps j).tf
run_to_ready-tf ps i j = if-tf (is_running (proc_at ps i).state) ps i j ProcState.runnable

ready_to_run-tf :
    (ps : List Proc) (i j : ℕ) → (proc_at (ready_to_run ps i) j).tf ≡ (proc_at ps j).tf
ready_to_run-tf ps i j = if-tf (is_runnable (proc_at ps i).state) ps i j ProcState.running

switch_to-tf :
    (cur next j : ℕ) (k : Kernel)
    → (proc_at (switch_to cur next k).0.procs j).tf ≡ (proc_at k.procs j).tf
unfolding switch_to
switch_to-tf cur next j k = elim (Bool-cases (next == cur)) [
  | inl e ↦ rw e
  | inr e ↦ rw e (ready_to_run-tf (run_to_ready k.procs cur) next j ∙ run_to_ready-tf k.procs cur j)
]

yield_from-tf :
    (cur j : ℕ) (k : Kernel) → (proc_at (yield_from cur k).0.procs j).tf ≡ (proc_at k.procs j).tf
unfolding yield_from
yield_from-tf cur j k =
    switch_to-tf cur (or_idle k.idle (pick_next k.process_count cur (run_to_ready k.procs cur))) j
      (record k { procs = run_to_ready k.procs cur })
    ∙ run_to_ready-tf k.procs cur j

-- The kernel in which the process `cur` keeps a frame
abbrev pub kept_frame : TrapFrame → ℕ → Kernel → Kernel
kept_frame f cur k = record k {
  procs = set_proc k.procs cur (record (proc_at k.procs cur) { tf = some f });
}

-- The table in which `yield` chooses: the process keeps the frame and is ready
abbrev pub ready_table : TrapFrame → ℕ → Kernel → List Proc
ready_table f cur k = run_to_ready (kept_frame f cur k).procs cur

-- How the interrupt of `cur` ends: with the first process behind idle that may run (`Chosen`) as the
-- current one, or idle if there is none, which alone may be marked as running; in the program with
-- its frame and program counter if that is the process itself, and else with the CPU given away.
pub record Resumed (k : Kernel) (f : TrapFrame) (pc cur : ℕ) (e : TrapEnd) : Type 0 where
  pub choice : Option ℕ
  pub chosen : Chosen k.process_count cur (ready_table f cur k) choice
  pub current : (kernel_of e).current ≡ some (or_idle k.idle choice)
  pub only : OnlyRunning (or_idle k.idle choice) (kernel_of e).procs
  pub ending :
      ((or_idle k.idle choice ≡ cur) × (e ≡ back f pc no_effects (kernel_of e)))
      ⊎ ((or_idle k.idle choice ≢ cur) × (e ≡ away no_effects (kernel_of e)))
  pub saved : (proc_at (kernel_of e).procs cur).tf ≡ some f

end_timer-kernel : (f : TrapFrame) (pc : ℕ) (r : Kernel × Bool) → kernel_of (end_timer f pc r) ≡ r.0
end_timer-kernel f pc (k, true) = refl
end_timer-kernel f pc (k, false) = refl

Chosen-pick_next :
    (count cur : ℕ) (ps : List Proc)
    → cur < length ps
    → Chosen count cur ps (pick_next count cur ps)
Chosen-pick_next count cur [] h = absurd (omega arith)
Chosen-pick_next count cur (p ∷ ps) h = pick_next-Chosen count cur p ps

-- The end for what `yield` did.
Yielded-Resumed :
    (k : Kernel) (f : TrapFrame) (pc cur : ℕ) (r : Kernel × Bool)
    → cur < length (ready_table f cur k)
    → Yielded (kept_frame f cur k) cur r.0 r.1
    → (proc_at r.0.procs cur).tf ≡ some f
    → Resumed k f pc cur (end_timer f pc r)
Yielded-Resumed k f pc cur (k', b) size y has = record {
  choice = pick_next k.process_count cur (ready_table f cur k);
  chosen = Chosen-pick_next k.process_count cur (ready_table f cur k) size;
  current = subst (λ m. m.current ≡ some next) (sym ek) (y.current ∙ ap some y.choice);
  only =
      subst (λ m. OnlyRunning next m.procs) (sym ek)
        (subst (λ n. OnlyRunning n k'.procs) y.choice y.only);
  ending = ends b y.stays y.leaves;
  saved = subst (λ m. (proc_at m.procs cur).tf ≡ some f) (sym ek) has;
}
  where
    next : ℕ
    next = or_idle k.idle (pick_next k.process_count cur (ready_table f cur k))

    ek : kernel_of (end_timer f pc (k', b)) ≡ k'
    ek = end_timer-kernel f pc (k', b)

    ends :
        (b' : Bool)
        → (b' ≡ false → (y.next ≡ cur) × (is_running (proc_at k'.procs cur).state ≡ false))
        → (b' ≡ true → y.next ≢ cur)
        → ((next ≡ cur)
            × (end_timer f pc (k', b')
                ≡ back f pc no_effects (kernel_of (end_timer f pc (k', b')))))
          ⊎ ((next ≢ cur)
              × (end_timer f pc (k', b') ≡ away no_effects (kernel_of (end_timer f pc (k', b')))))
    ends true stays leaves = inr (λ e. leaves refl (y.choice ∙ e), refl)
    ends false stays leaves = inl (sym y.choice ∙ (stays refl).0, refl)

-- The timer's interrupt of the current process of a kernel in order (`IsKernel`), when the process
-- has a place for its frame: `trap_handler` ends, and the process keeps the frame of the interrupt.
-- The current process is then the first one behind idle that may run (`Chosen`), or idle, and no
-- other process is marked as running; if it is the interrupted process itself, the end is back in
-- the program with the frame and the program counter of the interrupt, and else control does not
-- come back.
pub trap_handler-Resumed :
    (w : World) (own : Bool) (scause pc : ℕ) (f old : TrapFrame) (k : Kernel) (cur : ℕ)
    → IsKernel k
    → k.current ≡ some cur
    → is_timer scause ≡ true
    → (proc_at k.procs cur).tf ≡ some old
    → (e : TrapEnd) × (trap_handler w own scause pc f k ≡ some e) × Resumed k f pc cur e
unfolding trap_handler save_frame yield
trap_handler-Resumed w own scause pc f old k cur h ec timer has =
    let saved : Proc = record (proc_at k.procs cur) { tf = some f } in
    let k1 = kept_frame f cur k in
    let h1 = current-IsKernel k h cur saved k.memory k.process_count ec refl in
    let same : h.cur ≡ cur = cc in
    let h1_current = h1.current in
    let same1 : h1.cur ≡ cur = cc in
    let in_list : cur < length k.procs = omega (arith, h.size, h.in_table) in
    let in_kept : cur < length k1.procs = omega (arith, length-set_proc k.procs cur saved) in
    let r = yield_from cur k1 in
    (
      end_timer f pc r,
      rw (ec, has, timer),
      Yielded-Resumed k f pc cur r (omega (arith, length-run_to_ready k1.procs cur))
          (switch_to-Yielded k1 cur _ ec in_kept (subst (λ c. OnlyRunning c k1.procs) same1 h1.only)
            refl)
          (yield_from-tf cur cur k1 ∙ ap (λ p. p.tf) (proc_at-set_proc k.procs cur saved in_list)),
    )
