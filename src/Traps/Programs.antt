-- ===== src/Traps/Programs.antt =====
-- kernel/syscall.c: `sys_fork` and `sys_exec` keep what holds of the kernel's variables.
use riscv_os.Prelude.{
  u64, ℕ, ◌+◌, ◌-◌, ◌/◌, ◌^◌, not, ◌≡◌, refl, ℤ, pos, none, some, List, ◌==◌, drop, replicate,
  Option-cases, inl, inr,
}
use riscv_os.Frames.{Memory, page_size, alloc_pages, free_page}
use riscv_os.Process.{Proc, Kernel, TrapFrame, proc_at, set_proc, proc_name_max_len}
use riscv_os.Scheduler.{yield}
use riscv_os.Teardown.{
  process_free_userspace, free_user_loop, free_pagetable, user_rounds, end_va, user_base,
}
use riscv_os.Image.{Symbols, owner_of, build_space, exec_process}
use riscv_os.Archive.{tarfs_lookup}
use riscv_os.Elf.{
  flat_image, bounds, image_bounds, copy_segments, place_image, read_ehdr, read_phdrs, elf_magic,
  extract_to_exec, read_symbols,
}
use riscv_os.Syscalls.Exec.{
  ExecEnd, failed, replaced, copy_text, read_argv, replace_program, start_program, run_program,
  strip_elf_extension, place_arguments, sys_exec, exec_proc,
}
use riscv_os.Traps.Invariant.{
  OnSome, on, stopped, bind-OnSome, if-OnSome, IsKernel, current-IsKernel,
}
use riscv_os.Traps.Yield.{yield-IsKernel}
use riscv_os.Traps.Calls.{result_of}

abbrev pub ExecKernel : ExecEnd → Type 0
ExecKernel (failed d k) = IsKernel k
ExecKernel (replaced a k b) = IsKernel k

-- A process index with a kernel in which that process is the current one
abbrev Current : ℕ → Kernel → Type 0
Current cur k = (k.current ≡ some cur) × IsKernel k

-- A record of the kernel with other memory
memory-IsKernel : (k : Kernel) (m : Memory) → IsKernel k → IsKernel (record k { memory = m })
memory-IsKernel k m h = record {
  size = h.size;
  cur = h.cur;
  current = h.current;
  in_table = h.in_table;
  idle_in_table = h.idle_in_table;
  only = h.only;
  numbered = h.numbered;
}

exec_process-IsKernel :
    (kernel_base ram_end : ℕ) (s : Symbols) (old : TrapFrame) (image size : ℕ) (k : Kernel)
    → IsKernel k
    → OnSome (λ r. Current r.0 r.1) (exec_process kernel_base ram_end s old image size k)
unfolding exec_process
exec_process-IsKernel kernel_base ram_end s old image size k h = bind-OnSome k.current _ (λ cur ec.
    bind-OnSome (build_space kernel_base ram_end (owner_of k) s image size k.memory) _
      (λ (pt, m) e. on (ec, current-IsKernel k h cur _ m k.process_count ec refl)))

flat_image-IsKernel :
    (ram_end : ℕ) (elf : List ℕ) (k : Kernel)
    → IsKernel k
    → OnSome (λ r. IsKernel r.2) (flat_image ram_end elf k)
unfolding flat_image
flat_image-IsKernel ram_end elf k h = bind-OnSome (read_ehdr elf) _ (λ ehdr e.
    if-OnSome (not (ehdr.e_magic == elf_magic)) none _ stopped (
      bind-OnSome (read_phdrs elf ehdr.e_phnum ehdr.e_phoff) _ (λ phdrs e1.
        let b = image_bounds (bounds phdrs (2 ^ 64 - 1, 0)) in
        bind-OnSome
          (alloc_pages ram_end (owner_of k) (u64 (b.1 + (page_size - 1)) / page_size) k.memory) _
          (λ (pa, m) e2.
            bind-OnSome (copy_segments elf b.0 b.1 phdrs (λ o. 0)) _
              (λ image e3. on (memory-IsKernel k (place_image pa b.1 image m) h))))))

extract_to_exec-IsKernel :
    (kernel_base ram_end : ℕ) (old : TrapFrame) (elf : List ℕ) (k : Kernel)
    → IsKernel k
    → OnSome (λ r. Current r.1 r.2) (extract_to_exec kernel_base ram_end old elf k)
unfolding extract_to_exec
extract_to_exec-IsKernel kernel_base ram_end old elf k h =
    bind-OnSome (flat_image ram_end elf k) _ (λ (pa, size, k') e.
      bind-OnSome (read_symbols elf) _ (λ s es.
        bind-OnSome (exec_process kernel_base ram_end s old pa size k') _ (λ (cur, k'') e1. on (
          result_of e1 (
            exec_process-IsKernel kernel_base ram_end s old pa size k'
              (result_of e (flat_image-IsKernel ram_end elf k h)))))))

userspace_pid :
    (fuel stack_top : ℕ) (p : Proc) (m : Memory)
    → OnSome (λ r. r.0.pid ≡ p.pid) (process_free_userspace fuel stack_top p m)
unfolding process_free_userspace
userspace_pid fuel stack_top p m = if-OnSome (p.page_table == 0) _ _ (on refl) (
    bind-OnSome (free_user_loop p.page_table (user_rounds (end_va stack_top p)) user_base m) _
      (λ m1 e. bind-OnSome (free_pagetable fuel p.page_table (pos 2) m1) _ (λ m2 e2. on refl)))

module _ (kernel_base ram_end user_return : ℕ) (old_frame : TrapFrame) (fuel stack_top : ℕ) where
  replace_program-IsKernel :
      (elf : List ℕ) (k : Kernel)
      → IsKernel k
      → OnSome
          (λ r. Current r.1 r.2)
          (replace_program kernel_base ram_end user_return old_frame fuel stack_top elf k)
  unfolding replace_program
  replace_program-IsKernel elf k h = bind-OnSome k.current _ (λ cur ec.
      bind-OnSome (process_free_userspace fuel stack_top (proc_at k.procs cur) k.memory) _
        (λ (p, m) e.
          extract_to_exec-IsKernel kernel_base ram_end old_frame elf
            (record k { procs = set_proc k.procs cur p; memory = m })
            (current-IsKernel k h cur p m k.process_count ec
              (result_of e (userspace_pid fuel stack_top (proc_at k.procs cur) k.memory)))))

  start_program-IsKernel :
      (progname : List ℕ) (rows : List (List ℕ)) (argc argv_buf : ℕ) (s : Symbols) (cur : ℕ)
      (k : Kernel)
      → Current cur k
      → OnSome ExecKernel (
          start_program kernel_base ram_end user_return old_frame fuel stack_top progname rows argc
            argv_buf
            (s, cur, k))
  unfolding start_program
  start_program-IsKernel progname rows argc argv_buf s cur k (ec, h) =
      bind-OnSome (strip_elf_extension progname (proc_at k.procs cur).name proc_name_max_len) _
        (λ name e. bind-OnSome (place_arguments s rows) _ (λ (sp, argv_ptr, stored) e1.
          let h' =
            current-IsKernel k h cur
              (exec_proc user_return sp argc argv_ptr name (proc_at k.procs cur))
              (free_page argv_buf k.memory) k.process_count ec refl in
          bind-OnSome (yield _) _ (λ (k', b) e2. on (result_of e2 (yield-IsKernel _ h')))))

  run_program-IsKernel :
      (user : ℕ → ℕ) (archive buf : List ℕ) (argv : ℕ) (argc : ℤ) (bits at : ℕ) (k : Kernel)
      → IsKernel k
      → OnSome ExecKernel (
          run_program kernel_base ram_end user_return old_frame fuel stack_top user archive buf argv
            argc bits at k)
  unfolding run_program
  run_program-IsKernel user archive buf argv argc bits at k h =
      bind-OnSome (alloc_pages ram_end (owner_of k) 1 k.memory) _ (λ (argv_buf, m) e2.
        bind-OnSome (read_argv user argv argc) _ (λ rows e3.
          bind-OnSome
            (replace_program kernel_base ram_end user_return old_frame fuel stack_top
              (drop at archive) (record k { memory = m }))
            _
            (λ (s, cur, k') e4. start_program-IsKernel buf rows bits argv_buf s cur k' (
              result_of e4 (
                replace_program-IsKernel (drop at archive) (record k { memory = m })
                  (memory-IsKernel k m h))))))

  pub sys_exec-IsKernel :
      (user : ℕ → ℕ) (archive_fuel : ℕ) (archive progname : List ℕ) (argv : ℕ) (argc : ℤ) (bits : ℕ)
      (k : Kernel)
      → IsKernel k
      → OnSome ExecKernel (
          sys_exec kernel_base ram_end user_return old_frame fuel stack_top user archive_fuel
            archive progname argv argc bits k)
  unfolding sys_exec
  sys_exec-IsKernel user archive_fuel archive progname argv argc bits k h =
      bind-OnSome (copy_text (replicate proc_name_max_len 0) progname proc_name_max_len) _ (λ buf e.
        bind-OnSome (tarfs_lookup archive_fuel archive progname) _ (λ file e1.
          elim (Option-cases file) [
            | inl en ↦ rw en (on h)
            | inr ((at, size), es) ↦
                rw es (run_program-IsKernel user archive buf argv argc bits at k h)
          ]))
