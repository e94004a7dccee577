-- ===== src/Traps/Interrupted.antt =====
-- kernel/alloc-tracker.c enables interrupts inside `sys_wait`: what holds of the kernel's variables
-- holds there too.
use riscv_os.Prelude.{
  ℕ, zero, suc, ◌+◌, ◌<◌, ◌≡◌, ◌≢◌, refl, sym, subst, ap, ◌∙◌, pos, none, true, leb, ◌==◌,
  Bool-cases, inl, inr, ==→eq, ==_false→ne,
}
use riscv_os.Frames.{Memory}
use riscv_os.Process.{Proc, Kernel, procs_max, proc_at, is_running}
use riscv_os.Teardown.{
  resets, reset_some, release, freeing, free_image, process_free_userspace, free_user_loop,
  user_rounds, end_va, user_base, free_pagetable,
}
use riscv_os.Syscalls.{find_zombie, wait_interrupted}
use riscv_os.Traps.Invariant.{OnSome, on, bind-OnSome, if-OnSome, IsKernel, set-IsKernel}
use riscv_os.Traps.Calls.{result_of, free_proc-IsKernel, find_zombie-lt}

-- A process that is not made running and has its pid or none.
abbrev Tame : Proc → Proc → Type 0
Tame p q = (is_running q.state ≡ true → is_running p.state ≡ true) × (q.pid ≢ 0 → q.pid ≡ p.pid)

abbrev Kept : Proc → Proc × Memory → Type 0
Kept p r = (r.0.pid ≡ p.pid) × (r.0.state ≡ p.state)

module _ (fuel stack_top : ℕ) where
  reset_some-Tame :
      (n : ℕ) (p : Proc) → Tame p (reset_some fuel stack_top n (resets fuel stack_top) p)
  reset_some-Tame zero p = (λ r. r, λ ne. refl)
  reset_some-Tame (suc zero) p = (λ r. cc, λ ne. refl)
  reset_some-Tame (suc (suc zero)) p = (λ r. cc, λ ne. absurd (ne refl))
  reset_some-Tame (suc (suc (suc zero))) p = (λ r. cc, λ ne. absurd (ne refl))
  reset_some-Tame (suc (suc (suc (suc zero)))) p = (λ r. cc, λ ne. absurd (ne refl))
  reset_some-Tame (suc (suc (suc (suc (suc zero))))) p = (λ r. cc, λ ne. absurd (ne refl))
  reset_some-Tame (suc (suc (suc (suc (suc (suc zero)))))) p = (λ r. cc, λ ne. absurd (ne refl))
  reset_some-Tame (suc (suc (suc (suc (suc (suc (suc zero))))))) p =
      (λ r. cc, λ ne. absurd (ne refl))
  reset_some-Tame (suc (suc (suc (suc (suc (suc (suc (suc zero)))))))) p =
      (λ r. cc, λ ne. absurd (ne refl))
  reset_some-Tame (suc (suc (suc (suc (suc (suc (suc (suc (suc n))))))))) p =
      (λ r. cc, λ ne. absurd (ne refl))

  process_free_userspace-Kept :
      (p : Proc) (m : Memory) → OnSome (Kept p) (process_free_userspace fuel stack_top p m)
  unfolding process_free_userspace
  process_free_userspace-Kept p m = if-OnSome (p.page_table == 0) _ _ (on (refl, refl)) (
      bind-OnSome (free_user_loop p.page_table (user_rounds (end_va stack_top p)) user_base m) _
        (λ m1 e1.
          bind-OnSome (free_pagetable fuel p.page_table (pos 2) m1) _ (λ m2 e2. on (refl, refl))))

  free_image-Kept : (p : Proc) (m : Memory) → Kept p (free_image fuel stack_top p m)
  unfolding free_image
  free_image-Kept p m = elim (Bool-cases (p.image_pa == 0)) [
    | inl e ↦ rw e (refl, refl)
    | inr e ↦ rw e (refl, refl)
  ]

  release-Kept :
      (max i : ℕ) (k : Kernel) → OnSome (Kept (proc_at k.procs i)) (release fuel stack_top max i k)
  unfolding release
  release-Kept max i k =
      let p0 : Proc = record (proc_at k.procs i) { tf = none } in
      let freed = free_image fuel stack_top p0 k.memory in
      let (ep, es) = free_image-Kept p0 k.memory in
      bind-OnSome (process_free_userspace fuel stack_top freed.0 freed.1) _ (λ (p, m) e.
        let (ep', es') = result_of e (process_free_userspace-Kept freed.0 freed.1) in
        on (ep' ∙ ep, es' ∙ es))

  freeing-IsKernel :
      (max n i : ℕ) (k : Kernel)
      → i < procs_max
      → IsKernel k
      → OnSome IsKernel (freeing fuel stack_top max n i k)
  unfolding freeing
  freeing-IsKernel max n i k hi h = bind-OnSome (release fuel stack_top max i k) _ (λ (p, m) e.
      let (ep, es) = result_of e (release-Kept max i k) in
      let (calm, same) = reset_some-Tame n p in
      on (
        set-IsKernel k h i (reset_some fuel stack_top n (resets fuel stack_top) p) m k.process_count
          hi (λ r. is_current k h i (ap is_running (sym es) ∙ calm r))
          (λ ne. same ne ∙ ep ∙ h.numbered i (λ z. ne (same ne ∙ ep ∙ z)))))
    where
      is_current :
          (k' : Kernel) (h' : IsKernel k') (j : ℕ)
          → is_running (proc_at k'.procs j).state ≡ true
          → j ≡ h'.cur
      is_current k' h' j r = elim (Bool-cases (j == h'.cur)) [
        | inl e ↦ ==→eq j h'.cur e
        | inr e ↦ let calm = h'.only j (==_false→ne j h'.cur e) in cc
      ]

  pub wait_interrupted-IsKernel :
      (max n : ℕ) (k : Kernel)
      → IsKernel k
      → OnSome IsKernel (wait_interrupted fuel stack_top max n k)
  unfolding wait_interrupted
  wait_interrupted-IsKernel max n k h = bind-OnSome k.current _ (λ cur ec.
      bind-OnSome (find_zombie cur k.procs 0) _ (λ i e.
        let hi : i < procs_max = subst (λ x. i < 0 + x) h.size (find_zombie-lt cur k.procs 0 i e) in
        if-OnSome (leb n 8) _ _ (freeing-IsKernel max n i k hi h)
          (free_proc-IsKernel fuel stack_top max i k hi h)))
