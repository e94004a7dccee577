-- ===== src/Syscalls/Reap.antt =====
-- kernel/syscall.c: a child that exits is found by its parent's `sys_wait`.
use riscv_os.Prelude.{
  ℕ, zero, suc, ◌+◌, ◌≤◌, ◌<◌, ◌≡◌, refl, ap, sym, ◌∙◌, subst, ℤ, true, some, List, [], ◌∷◌, arith,
  length, Bool-cases, inl, inr, ==_refl,
}
use riscv_os.Process.{Proc, Kernel, proc_at, set_proc, zombie}
use riscv_os.Process.Table.{proc_at-set_proc, length-set_proc}
use riscv_os.Syscalls.{sys_exit, is_dead_child, find_zombie}

-- The entry that the loop finds, from index `b`, if there is a dead child at `j`.
find_zombie-found :
    (cur : ℕ) (ps : List Proc) (b j : ℕ)
    → j < length ps
    → is_dead_child cur (proc_at ps j) ≡ true
    → (i : ℕ) × (find_zombie cur ps b ≡ some (b + i))
      × (i ≤ j)
      × (i < length ps)
      × (is_dead_child cur (proc_at ps i) ≡ true)
unfolding find_zombie
find_zombie-found cur [] b j h d = absurd (omega arith)
find_zombie-found cur (p ∷ ps) b zero h d =
    let e : b ≡ b + 0 = omega arith in (0, rw d (ap some e), omega arith, omega arith, d)
find_zombie-found cur (p ∷ ps) b (suc j) h d = elim (Bool-cases (is_dead_child cur p)) [
  | inl t ↦ let e : b ≡ b + 0 = omega arith in (0, rw t (ap some e), omega arith, omega arith, t)
  | inr t ↦
      let (i, ei, le, lt, di) = find_zombie-found cur ps (b + 1) j (omega arith) d in
      let e : b + 1 + i ≡ b + suc i = omega arith in
      (suc i, rw t (ei ∙ ap some e), omega arith, omega arith, di)
]

dead_child :
    (par : ℕ) (p : Proc) → p.state ≡ zombie → p.parent ≡ some par → is_dead_child par p ≡ true
unfolding is_dead_child
dead_child par p es ep = rw (es, ep) (==_refl par)

-- Once a process of the table that has a parent has exited, the loop of the parent's `sys_wait`
-- finds a child that is a zombie, at the process's entry or before it; and the process's entry
-- holds the exit code.
pub find_zombie-sys_exit :
    (k : Kernel) (cur par : ℕ) (code : ℤ)
    → k.current ≡ some cur
    → cur < length k.procs
    → (proc_at k.procs cur).parent ≡ some par
    → (k' : Kernel) × (i : ℕ) × (sys_exit code k ≡ some k')
      × (find_zombie par k'.procs 0 ≡ some i)
      × (i ≤ cur)
      × (is_dead_child par (proc_at k'.procs i) ≡ true)
      × ((proc_at k'.procs cur).exit_code ≡ code)
unfolding sys_exit
find_zombie-sys_exit k cur par code ec h ep =
    let q : Proc = record (proc_at k.procs cur) { state = zombie; exit_code = code } in
    let at : proc_at (set_proc k.procs cur q) cur ≡ q = proc_at-set_proc k.procs cur q h in
    let (i, ei, le, lt, d) =
      find_zombie-found par (set_proc k.procs cur q) 0 cur
        (subst (λ n. cur < n) (sym (length-set_proc k.procs cur q)) h)
        (subst (λ p. is_dead_child par p ≡ true) (sym at) (dead_child par q refl ep)) in
    let e : 0 + i ≡ i = omega arith in
    (
      record k { procs = set_proc k.procs cur q },
      i,
      rw ec,
      ei ∙ ap some e,
      le,
      d,
      ap (λ p. p.exit_code) at,
    )
