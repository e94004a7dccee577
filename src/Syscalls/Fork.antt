-- ===== src/Syscalls/Fork.antt =====
-- kernel/syscall.c: what `sys_fork` leaves in the table of processes.
use riscv_os.Prelude.{
  u64, ℕ, ◌+◌, ◌<◌, ◌≡◌, ◌≢◌, refl, ap, sym, subst, ◌∙◌, ℤ, pos, negsuc, true, false, none, some,
  List, ne→==_false, arith, length, Option-cases, inl, inr,
}
use riscv_os.Frames.{Memory, alloc_pages}
use riscv_os.Process.{
  Proc, Kernel, TrapFrame, runnable, empty_proc, empty_inbox, procs_max, reg_a0, set_reg, proc_at,
  set_proc, is_unused, find_unused, alloc_free_proc, get_proc_by_pid,
}
use riscv_os.Process.Table.{
  proc_at-set_proc, proc_at-set_proc_ne, length-set_proc, find_unused-lem,
  alloc_free_proc-find_unused, get_proc_by_pid-suc,
}
use riscv_os.Image.{owner_of}
use riscv_os.Syscalls.{sys_fork, fork_space, copy_name, forked_proc, parent_frame}
use riscv_os.Traps.Invariant.{OnSome, on, bind-OnSome}

-- A frame that is another one but for the result of a call and the instruction to go on at
pub record Returns (result next : ℕ) (tf tf' : TrapFrame) : Type 0 where
  pub a0 : tf'.regs reg_a0 ≡ result
  pub others : (r : ℕ) → r ≢ reg_a0 → tf'.regs r ≡ tf.regs r
  pub sp : tf'.sp ≡ tf.sp
  pub epc : tf'.epc ≡ next

-- The kernel after a fork of the process at `cur`, with its child at `i`
pub record Forked (k : Kernel) (cur : ℕ) (tf : TrapFrame) (i : ℕ) (k' : Kernel) : Type 0 where
  pub free : is_unused (proc_at k.procs i).state ≡ true
  pub found : get_proc_by_pid (pos (i + 1)) ≡ some i
  pub pid : (proc_at k'.procs i).pid ≡ i + 1
  pub state : (proc_at k'.procs i).state ≡ runnable
  pub parent : (proc_at k'.procs i).parent ≡ some cur
  pub parent_pid : (proc_at k'.procs i).parent_pid ≡ (proc_at k.procs cur).pid
  pub inbox : (proc_at k'.procs i).inbox ≡ empty_inbox
  pub heap_end : (proc_at k'.procs i).heap_end ≡ (proc_at k.procs cur).heap_end
  pub child_tf : TrapFrame
  pub child_frame : (proc_at k'.procs i).tf ≡ some child_tf
  pub child_returns : Returns 0 (u64 (tf.epc + 4)) tf child_tf
  pub parent_tf : TrapFrame
  pub parent_entry : proc_at k'.procs cur ≡ record (proc_at k.procs cur) { tf = some parent_tf }
  pub parent_returns : Returns (i + 1) tf.epc tf parent_tf
  pub others : (j : ℕ) → j ≢ i → j ≢ cur → proc_at k'.procs j ≡ proc_at k.procs j
  pub current : k'.current ≡ k.current
  pub count : k'.process_count ≡ k.process_count + 1

-- The result: -1, with the kernel as it was, if every entry is in use; else the pid of a child.
pub data ForkEnd (k : Kernel) (cur : ℕ) (tf : TrapFrame) : ℤ × Kernel → Type 0 where
  full : find_unused k.procs 0 ≡ none → ForkEnd k cur tf (negsuc 0, k)
  child : (i : ℕ) (k' : Kernel) → Forked k cur tf i k' → ForkEnd k cur tf (pos (i + 1), k')

not_both : true ≡ false → ⊥
not_both e = ground (arith, e)

alloc_free_proc-none : (ps : List Proc) → alloc_free_proc ps ≡ none → find_unused ps 0 ≡ none
unfolding alloc_free_proc
alloc_free_proc-none ps e = elim (Option-cases (find_unused ps 0)) [
  | inl n ↦ n
  | inr (i, f) ↦ absurd (ground (arith, rw (alloc_free_proc, f) at e))
]

set_reg-Returns :
    (tf : TrapFrame) (v e : ℕ)
    → Returns v e tf (record tf { regs = set_reg tf.regs reg_a0 v; epc = e })
unfolding set_reg
set_reg-Returns tf v e = record {
  a0 = refl;
  others = λ r ne. rw (ne→==_false r reg_a0 ne) refl;
  sp = refl;
  epc = refl;
}

Forked-forked_proc :
    (kernel_base ram_end : ℕ) (k : Kernel) (cur : ℕ) (tf : TrapFrame) (i pt : ℕ) (name : List ℕ)
    (m : Memory)
    → i < length k.procs
    → cur < length k.procs
    → i < procs_max
    → i ≢ cur
    → is_unused (proc_at k.procs i).state ≡ true
    → Forked k cur tf i (record k {
      procs =
          set_proc
            (set_proc
              (set_proc k.procs i (record empty_proc { pid = i + 1 }))
              cur
              (record (proc_at k.procs cur) {
                tf = some (parent_frame kernel_base ram_end (i + 1) tf);
              }))
            i
            (forked_proc kernel_base ram_end cur
              (proc_at k.procs cur)
              (record empty_proc { pid = i + 1 })
              pt
              tf
              name);
      process_count = k.process_count + 1;
      memory = m;
    })
Forked-forked_proc kernel_base ram_end k cur tf i pt name m hi hc small ne free =
    let fresh : Proc = record empty_proc { pid = i + 1 } in
    let ptf : TrapFrame = parent_frame kernel_base ram_end (i + 1) tf in
    let p : Proc = record (proc_at k.procs cur) { tf = some ptf } in
    let c : Proc = forked_proc kernel_base ram_end cur (proc_at k.procs cur) fresh pt tf name in
    let ps1 : List Proc = set_proc k.procs i fresh in
    let ps2 : List Proc = set_proc ps1 cur p in
    let l1 : length ps1 ≡ length k.procs = length-set_proc k.procs i fresh in
    let l2 : length ps2 ≡ length ps1 = length-set_proc ps1 cur p in
    let ec : proc_at (set_proc ps2 i c) i ≡ c =
      proc_at-set_proc ps2 i c (omega (arith, hi, l1, l2)) in
    let ep : proc_at (set_proc ps2 i c) cur ≡ p =
      proc_at-set_proc_ne ps2 i cur c ne ∙ proc_at-set_proc ps1 cur p (omega (arith, hc, l1)) in
    record {
      free = free;
      found = get_proc_by_pid-suc i small;
      pid = ap (λ q. q.pid) ec;
      state = ap (λ q. q.state) ec;
      parent = ap (λ q. q.parent) ec;
      parent_pid = ap (λ q. q.parent_pid) ec;
      inbox = ap (λ q. q.inbox) ec;
      heap_end = ap (λ q. q.heap_end) ec;
      child_tf = _;
      child_frame = ap (λ q. q.tf) ec;
      child_returns = set_reg-Returns tf 0 (u64 (tf.epc + 4));
      parent_tf = ptf;
      parent_entry = ep;
      parent_returns = set_reg-Returns tf (i + 1) tf.epc;
      others = λ j ni nc.
          proc_at-set_proc_ne ps2 i j c (λ e. ni (sym e))
          ∙ proc_at-set_proc_ne ps1 cur j p (λ e. nc (sym e))
          ∙ proc_at-set_proc_ne k.procs i j fresh (λ e. ni (sym e));
      current = refl;
      count = refl;
    }

child_of :
    (k : Kernel) (x y : ℕ) (tf : TrapFrame) (i : ℕ) (k' : Kernel)
    → x ≡ y
    → Forked k y tf i k'
    → ForkEnd k x tf (pos (i + 1), k')
child_of k x y tf i k' e f = child i k' (subst (λ z. Forked k z tf i k') (sym e) f)

-- `sys_fork` of a process in use with a trap frame, in a table of PROCS_MAX entries, if it does not
-- halt for lack of memory: if every
-- entry of the table is in use, it returns -1 and changes nothing. Else it returns the pid of an
-- entry that was free; `get_proc_by_pid` finds the child there, which is ready to run, has an empty
-- inbox and its parent's heap end, knows its parent, and goes on behind the `ecall` with 0 as its
-- result and all other registers of the parent; the parent's entry changes only in the result, the
-- child's pid; every other entry is as before, and one process more is counted.
pub sys_fork-ForkEnd :
    (kernel_base ram_end : ℕ) (k : Kernel) (cur : ℕ) (tf : TrapFrame)
    → length k.procs ≡ procs_max
    → k.current ≡ some cur
    → cur < procs_max
    → is_unused (proc_at k.procs cur).state ≡ false
    → (proc_at k.procs cur).tf ≡ some tf
    → OnSome (ForkEnd k cur tf) (sys_fork kernel_base ram_end k)
unfolding sys_fork
sys_fork-ForkEnd kernel_base ram_end k cur tf size ec hc used et = bind-OnSome k.current _ (λ c e0.
    let same : cur ≡ c = cc in
    let used' : is_unused (proc_at k.procs c).state ≡ false =
      subst (λ x. is_unused (proc_at k.procs x).state ≡ false) same used in
    let et' : (proc_at k.procs c).tf ≡ some tf =
      subst (λ x. (proc_at k.procs x).tf ≡ some tf) same et in
    let hc' : c < procs_max = subst (λ x. x < procs_max) same hc in
    elim (Option-cases (alloc_free_proc k.procs)) [
      | inl e ↦ rw e (on (full (alloc_free_proc-none k.procs e)))
      | inr ((i, ps), e) ↦
          let (found, eps) = alloc_free_proc-find_unused k.procs ps i e in
          let (j, ei, hj, u) = find_unused-lem k.procs 0 i found in
          let ij : j ≡ i = omega (arith, ei) in
          let hi : i < length k.procs = omega (arith, ij, hj) in
          let free : is_unused (proc_at k.procs i).state ≡ true =
            subst (λ n. is_unused (proc_at k.procs n).state ≡ true) ij u in
          let ne : i ≢ c = λ n.
            absurd
              (not_both (sym free ∙ ap (λ n. is_unused (proc_at k.procs n).state) n ∙ used')) in
          let fresh : Proc = record empty_proc { pid = i + 1 } in
          let e' : alloc_free_proc k.procs ≡ some (i, set_proc k.procs i fresh) =
            e ∙ ap (λ l. some (i, l)) eps in
          let at_cur : proc_at (set_proc k.procs i fresh) c ≡ proc_at k.procs c =
            proc_at-set_proc_ne k.procs i c fresh ne in
          let at_i : proc_at (set_proc k.procs i fresh) i ≡ fresh =
            proc_at-set_proc k.procs i fresh hi in
          rw (e', at_cur, at_i, et')
            (bind-OnSome (alloc_pages ram_end (owner_of k) 1 k.memory) _ (λ (page, m1) e1.
              bind-OnSome (fork_space kernel_base ram_end (owner_of k) (proc_at k.procs c) m1) _
                (λ (pt, m2) e2.
                  bind-OnSome (copy_name kernel_base ram_end fresh (proc_at k.procs c)) _
                    (λ name e3. on (
                      child_of k cur c tf i _ same (
                        Forked-forked_proc kernel_base ram_end k c tf i pt name m2 hi
                          (omega (arith, hc', size)) (omega (arith, hi, size)) ne free))))))
    ])
