-- ===== src/Traps/Calls.antt =====
-- kernel/syscall.c: the calls that change processes keep what holds of the kernel's variables.
use riscv_os.Prelude.{
  u64, ℕ, ◌+◌, ◌<◌, ◌≡◌, refl, subst, ℤ, Bool, Option, some, List, [], ◌∷◌, if◌then◌else◌, length,
  arith, Bool-cases, Option-cases, inl, inr,
}
use riscv_os.Process.{Proc, Kernel, procs_max, proc_at}
use riscv_os.Scheduler.{yield}
use riscv_os.Syscalls.{
  is_positive, grow_heap, heap_rounds, page_round_up, sys_sbrk, sys_exit, Waited, reaped, yielded,
  wait_round, find_zombie, is_dead_child,
}
use riscv_os.Teardown.{free_proc, release}
use riscv_os.Image.{owner_of}
use riscv_os.Traps.Invariant.{
  OnSome, on, bind-OnSome, IsKernel, Second, set-IsKernel, current-IsKernel,
}
use riscv_os.Traps.Yield.{yield-IsKernel}

-- What an operation returned has the property.
pub result_of : {A : Type 0} {P : A → Type 0} {o : Option A} {a : A} → o ≡ some a → OnSome P o → P a
result_of {P = P} {a = a} e h = some_result (subst (OnSome P) e h)
  where
    some_result : OnSome P (some a) → P a
    some_result (on x) = x

pub sys_sbrk-IsKernel :
    (kernel_base ram_end increment : ℕ) (k : Kernel)
    → IsKernel k
    → OnSome Second (sys_sbrk kernel_base ram_end increment k)
unfolding sys_sbrk
sys_sbrk-IsKernel kernel_base ram_end increment k h = bind-OnSome k.current _ (λ cur ec.
    bind-OnSome
      (if is_positive increment
        then grow_heap kernel_base ram_end (owner_of k) (proc_at k.procs cur).page_table
            (heap_rounds kernel_base ram_end (page_round_up (proc_at k.procs cur).heap_end)
              (u64 ((proc_at k.procs cur).heap_end + increment)))
            (page_round_up (proc_at k.procs cur).heap_end) k.memory
        else some k.memory)
      _ (λ m em. on (current-IsKernel k h cur _ m k.process_count ec refl)))

pub sys_exit-IsKernel : (code : ℤ) (k : Kernel) → IsKernel k → OnSome IsKernel (sys_exit code k)
unfolding sys_exit
sys_exit-IsKernel code k h =
    bind-OnSome k.current _
      (λ cur ec. on (current-IsKernel k h cur _ k.memory k.process_count ec refl))

-- A process that is freed has no pid, and does not run.
pub free_proc-IsKernel :
    (fuel stack_top max i : ℕ) (k : Kernel)
    → i < procs_max
    → IsKernel k
    → OnSome IsKernel (free_proc fuel stack_top max i k)
unfolding free_proc
free_proc-IsKernel fuel stack_top max i k hi h =
    bind-OnSome (release fuel stack_top max i k) _
      (λ (p, m) e. on (set-IsKernel k h i _ _ _ hi (λ r. cc) (λ ne. absurd (ne refl))))

pub find_zombie-lt :
    (cur : ℕ) (ps : List Proc) (i j : ℕ) → find_zombie cur ps i ≡ some j → j < i + length ps
unfolding find_zombie
find_zombie-lt cur [] i j h = cc
find_zombie-lt cur (p ∷ ps) i j h = elim (Bool-cases (is_dead_child cur p)) [
  | inl e ↦ let t : some i ≡ some j = rw e at h in ground arith
  | inr e ↦ let r = find_zombie-lt cur ps (i + 1) j (rw e at h) in omega (arith, r)
]

abbrev pub WaitedKernel : Waited → Type 0
WaitedKernel (reaped pid code k) = IsKernel k
WaitedKernel (yielded k b) = IsKernel k

pub wait_round-IsKernel :
    (fuel stack_top max : ℕ) (k : Kernel)
    → IsKernel k
    → OnSome WaitedKernel (wait_round fuel stack_top max k)
unfolding wait_round
wait_round-IsKernel fuel stack_top max k h = bind-OnSome k.current _ (λ cur ec.
    elim (Option-cases (find_zombie cur k.procs 0)) [
      | inl e ↦ rw e (bind-OnSome (yield k) _ (λ (k', b) ey. on (yielded_kernel k' b ey)))
      | inr (i, e) ↦
          let hi : i < procs_max =
            subst (λ n. i < 0 + n) h.size (find_zombie-lt cur k.procs 0 i e) in
          rw e (
            bind-OnSome (free_proc fuel stack_top max i k) _
              (λ k' ef. on (result_of ef (free_proc-IsKernel fuel stack_top max i k hi h))))
    ])
  where
    yielded_kernel : (k' : Kernel) (b : Bool) → yield k ≡ some (k', b) → IsKernel k'
    yielded_kernel k' b e = result_of e (yield-IsKernel k h)
