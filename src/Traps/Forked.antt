-- ===== src/Traps/Forked.antt =====
-- kernel/syscall.c: `sys_fork` keeps what holds of the kernel's variables.
use riscv_os.Prelude.{
  ℕ, ◌+◌, ◌<◌, ◌≡◌, refl, sym, ap, subst, ◌∙◌, some, List, arith, Option-cases, inl, inr,
}
use riscv_os.Frames.{Memory, alloc_pages}
use riscv_os.Process.{
  Proc, Kernel, TrapFrame, procs_max, proc_at, set_proc, alloc_free_proc, empty_proc,
}
use riscv_os.Process.Table.{find_unused-lem, alloc_free_proc-find_unused, proc_at-set_proc}
use riscv_os.Syscalls.{sys_fork, fork_space, copy_name, forked_proc, parent_frame}
use riscv_os.Image.{owner_of}
use riscv_os.Traps.Invariant.{
  OnSome, on, bind-OnSome, IsKernel, Second, set-IsKernel, current-IsKernel,
}

-- The table with a new process, its parent's frame and its own fields.
pub forked-IsKernel :
    (kernel_base ram_end : ℕ) (k : Kernel) (cur i pt : ℕ) (ps : List Proc) (tf : TrapFrame)
    (name : List ℕ) (m : Memory) (n : ℕ)
    → k.current ≡ some cur
    → IsKernel k
    → alloc_free_proc k.procs ≡ some (i, ps)
    → IsKernel (record k {
      procs =
          set_proc
            (set_proc ps cur (record (proc_at ps cur) {
              tf = some (parent_frame kernel_base ram_end (proc_at ps i).pid tf);
            }))
            i
            (forked_proc kernel_base ram_end cur (proc_at ps cur) (proc_at ps i) pt tf name);
      process_count = n;
      memory = m;
    })
forked-IsKernel kernel_base ram_end k cur i pt ps tf name m n ec h e =
    let (found, eps) = alloc_free_proc-find_unused k.procs ps i e in
    let (j, ei, hj, u) = find_unused-lem k.procs 0 i found in
    let hi : i < procs_max = omega (arith, h.size) in
    let fresh : Proc = record empty_proc { pid = i + 1 } in
    let pid : (proc_at ps i).pid ≡ i + 1 =
      ap (λ l. (proc_at l i).pid) eps
      ∙ ap (λ p. p.pid) (proc_at-set_proc k.procs i fresh (omega (arith, h.size))) in
    let h1 : IsKernel (record k { procs = ps }) =
      subst (λ l. IsKernel (record k { procs = l })) (sym eps)
        (set-IsKernel k h i fresh k.memory k.process_count hi (λ r. cc) (λ ne. refl)) in
    let h2 =
      current-IsKernel (record k { procs = ps }) h1 cur
        (record (proc_at ps cur) {
          tf = some (parent_frame kernel_base ram_end (proc_at ps i).pid tf);
        })
        m n ec refl in
    set-IsKernel _ h2 i _ m n hi (λ r. cc) (λ ne. pid)

pub sys_fork-IsKernel :
    (kernel_base ram_end : ℕ) (k : Kernel)
    → IsKernel k
    → OnSome Second (sys_fork kernel_base ram_end k)
unfolding sys_fork
sys_fork-IsKernel kernel_base ram_end k h = bind-OnSome k.current _ (λ cur ec.
    elim (Option-cases (alloc_free_proc k.procs)) [
      | inl e ↦ rw e (on h)
      | inr ((i, ps), e) ↦ rw e (
          bind-OnSome (alloc_pages ram_end (owner_of k) 1 k.memory) _ (λ (page, m1) e1.
            bind-OnSome (proc_at ps cur).tf _ (λ tf e2.
              bind-OnSome (fork_space kernel_base ram_end (owner_of k) (proc_at ps cur) m1) _
                (λ (pt, m2) e3.
                  bind-OnSome (copy_name kernel_base ram_end (proc_at ps i) (proc_at ps cur)) _
                    (λ name e4.
                      on
                        (forked-IsKernel kernel_base ram_end k cur i pt ps tf name m2 _ ec h e))))))
    ])
