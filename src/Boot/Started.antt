-- ===== src/Boot/Started.antt =====
-- kernel/kernel.c: the state in which the first `yield` is called.
use riscv_os.Prelude.{
  u64, ℕ, zero, suc, ◌+◌, ◌-◌, ◌/◌, ◌^◌, ◌<◌, ◌≡◌, refl, sym, ap, subst, ◌∙◌, inl, inr, true, false,
  not, none, some, List, ◌==◌, arith, length, drop, replicate, Bool-cases, ==→eq, ==_false→ne,
}
use riscv_os.Text.{strcpy}
use riscv_os.Frames.{Memory, page_size, alloc_pages}
use riscv_os.Process.{
  Proc, Kernel, empty_proc, procs_max, proc_at, set_proc, find_unused, is_running,
}
use riscv_os.Process.Table.{find_unused-lem, proc_at-set_proc, proc_at-set_proc_ne, length-set_proc}
use riscv_os.Archive.{tarfs_lookup}
use riscv_os.Image.{Symbols, owner_of, build_space, create_init_process}
use riscv_os.Elf.{
  extract_to_create, flat_image, read_ehdr, read_phdrs, read_symbols, elf_magic, bounds,
  image_bounds, copy_segments,
}
use riscv_os.Traps.Invariant.{
  OnSome, on, stopped, bind-OnSome, if-OnSome, Numbered, set-Numbered, IsKernel, set-IsKernel,
}
use riscv_os.Traps.Calls.{result_of}
use riscv_os.Boot.{
  create_program, load_idle, load_shell, load_processes, boot_kernel, idle_file, idle_name,
  shell_file, shell_name,
}

-- A new entry at a place, and all but memory and the count of processes as before.
record Created (k : Kernel) (i : ℕ) (k' : Kernel) : Type 0 where
  proc : Proc
  place : length k.procs ≡ procs_max → i < procs_max
  procs : k'.procs ≡ set_proc k.procs i proc
  pid : proc.pid ≡ 1 + i
  ready : is_running proc.state ≡ false
  current : k'.current ≡ k.current
  idle : k'.idle ≡ k.idle

-- The table after `memset`: no process runs, and no entry has a pid.
empty_table : (n j : ℕ) → proc_at (replicate n empty_proc) j ≡ empty_proc
empty_table zero j = refl
empty_table (suc n) zero = refl
empty_table (suc n) (suc j) = empty_table n j

set_ready :
    (ps : List Proc) (i : ℕ) (q : Proc)
    → i < length ps
    → ((j : ℕ) → is_running (proc_at ps j).state ≡ false)
    → is_running q.state ≡ false
    → (j : ℕ) → is_running (proc_at (set_proc ps i q) j).state ≡ false
set_ready ps i q hi all hq j = elim (Bool-cases (i == j)) [
  | inl e ↦
      subst (λ x. is_running (proc_at (set_proc ps i q) x).state ≡ false) (==→eq i j e)
        (ap (λ p. is_running p.state) (proc_at-set_proc ps i q hi) ∙ hq)
  | inr e ↦ ap (λ p. is_running p.state) (proc_at-set_proc_ne ps i j q (==_false→ne i j e)) ∙ all j
]

-- The idle process gets the pid 0 and becomes the current one.
first_process :
    (m : Memory) (i : ℕ) (k' : Kernel) (name : List ℕ)
    → Created (boot_kernel m) i k'
    → IsKernel (record k' {
      procs = set_proc k'.procs i (record (proc_at k'.procs i) { pid = 0; name = name });
      current = some i;
      idle = i;
    })
first_process m i k' name c =
    let blank = replicate procs_max empty_proc in
    let place : i < procs_max = c.place refl in
    let none_runs : (j : ℕ) → is_running (proc_at blank j).state ≡ false =
      λ j. ap (λ p. is_running p.state) (empty_table procs_max j) in
    let none_has : Numbered blank =
      λ j ne. absurd (ne (ap (λ p. p.pid) (empty_table procs_max j))) in
    let size : length k'.procs ≡ procs_max = ap length c.procs ∙ length-set_proc blank i c.proc in
    let here : i < length k'.procs = omega (arith, size) in
    let runs : (j : ℕ) → is_running (proc_at k'.procs j).state ≡ false =
      subst (λ l. (j : ℕ) → is_running (proc_at l j).state ≡ false) (sym c.procs)
        (set_ready blank i c.proc place none_runs c.ready) in
    let pids : Numbered k'.procs =
      subst Numbered (sym c.procs)
        (set-Numbered blank i c.proc place none_has (λ ne. omega (arith, c.pid))) in
    let idle : Proc = record (proc_at k'.procs i) { pid = 0; name = name } in
    record {
      size = length-set_proc k'.procs i idle ∙ size;
      cur = i;
      current = refl;
      in_table = place;
      idle_in_table = place;
      only = λ j ne. set_ready k'.procs i idle here runs (runs i) j;
      numbered = set-Numbered k'.procs i idle here pids (λ ne. absurd (ne refl));
    }

-- A further process that is ready.
next_process :
    (k : Kernel) (i : ℕ) (k' : Kernel) (name : List ℕ)
    → IsKernel k
    → Created k i k'
    → IsKernel
        (record k' { procs = set_proc k'.procs i (record (proc_at k'.procs i) { name = name }) })
next_process k i k' name h c =
    let place : i < procs_max = c.place h.size in
    let start =
      set-IsKernel k h i c.proc k'.memory k'.process_count place (λ r. cc)
        (λ ne. omega (arith, c.pid)) in
    let full : length k.procs ≡ procs_max = h.size in
    let self : proc_at k'.procs i ≡ c.proc =
      ap (λ l. proc_at l i) c.procs ∙ proc_at-set_proc k.procs i c.proc (omega arith) in
    let q : Proc = record (proc_at k'.procs i) { name = name } in
    let k1 : Kernel = record k {
      procs = k'.procs;
      memory = k'.memory;
      process_count = k'.process_count;
    } in
    let h1 : IsKernel k1 =
      subst
        (λ l.
          IsKernel (record k { procs = l; memory = k'.memory; process_count = k'.process_count }))
        (sym c.procs) start in
    let h2 =
      set-IsKernel k1 h1 i q k'.memory k'.process_count place
        (λ r.
          let y : is_running c.proc.state ≡ true = ap (λ p. is_running p.state) (sym self) ∙ r in
          let n = c.ready in cc)
        (λ ne. ap (λ p. p.pid) self ∙ c.pid ∙ omega arith) in
    record {
      size = h2.size;
      cur = h2.cur;
      current = c.current ∙ h2.current;
      in_table = h2.in_table;
      idle_in_table = subst (λ n. n < procs_max) (sym c.idle) h2.idle_in_table;
      only = h2.only;
      numbered = h2.numbered;
    }

create_init_process-Created :
    (kernel_base ram_end user_entry tf_ksp : ℕ) (s : Symbols) (image size : ℕ) (k : Kernel)
    (m1 : Memory)
    → OnSome
        (λ r. Created k r.0 r.1)
        (create_init_process kernel_base ram_end user_entry tf_ksp s image size
          (record k { memory = m1 }))
unfolding create_init_process
create_init_process-Created kernel_base ram_end user_entry tf_ksp s image size k m1 =
    bind-OnSome (find_unused k.procs 0) _ (λ i e.
      bind-OnSome (build_space kernel_base ram_end (owner_of k) s image size m1) _ (λ (pt, m) em.
        on (record {
          proc = _;
          place = λ full. let (j, ei, hj, u) = find_unused-lem k.procs 0 i e in omega arith;
          procs = refl;
          pid = refl;
          ready = refl;
          current = refl;
          idle = refl;
        })))

flat_image_memory :
    (ram_end : ℕ) (elf : List ℕ) (k : Kernel)
    → OnSome (λ r. r.2 ≡ record k { memory = r.2.memory }) (flat_image ram_end elf k)
unfolding flat_image
flat_image_memory ram_end elf k = bind-OnSome (read_ehdr elf) _ (λ ehdr e.
    if-OnSome (not (ehdr.e_magic == elf_magic)) none _ stopped (
      bind-OnSome (read_phdrs elf ehdr.e_phnum ehdr.e_phoff) _ (λ phdrs e1.
        let b = image_bounds (bounds phdrs (2 ^ 64 - 1, 0)) in
        bind-OnSome
          (alloc_pages ram_end (owner_of k) (u64 (b.1 + (page_size - 1)) / page_size) k.memory) _
          (λ (pa, m) e2.
            bind-OnSome (copy_segments elf b.0 b.1 phdrs (λ o. 0)) _ (λ image e3. on refl)))))

module _ (kernel_base ram_end user_entry : ℕ) (archive : List ℕ) where
  create_program-Created :
      (tf_ksp : ℕ) (file : List ℕ) (k : Kernel)
      → OnSome
          (λ r. Created k r.0 r.1)
          (create_program kernel_base ram_end user_entry archive tf_ksp file k)
  unfolding create_program extract_to_create
  create_program-Created tf_ksp file k =
      bind-OnSome (tarfs_lookup (length archive) archive file) _ (λ found e.
        bind-OnSome found _ (λ (at, size) e1.
          bind-OnSome (flat_image ram_end (drop at archive) k) _ (λ (pa, size', k') e2.
            bind-OnSome (read_symbols (drop at archive)) _ (λ s e3.
              subst
                (λ n.
                  OnSome (λ r. Created k r.0 r.1)
                    (create_init_process kernel_base ram_end user_entry tf_ksp s pa size' n))
                (sym (result_of e2 (flat_image_memory ram_end (drop at archive) k)))
                (create_init_process-Created kernel_base ram_end user_entry tf_ksp s pa size' k
                  k'.memory)))))

  -- With no process yet: the table of the idle process alone.
  load_idle-IsKernel :
      (tf_ksp : ℕ) (m : Memory)
      → OnSome IsKernel (load_idle kernel_base ram_end user_entry archive tf_ksp (boot_kernel m))
  unfolding load_idle
  load_idle-IsKernel tf_ksp m =
      bind-OnSome
        (create_program kernel_base ram_end user_entry archive tf_ksp idle_file (boot_kernel m)) _
        (λ (i, k') e.
          let c = result_of e (create_program-Created tf_ksp idle_file (boot_kernel m)) in
          bind-OnSome (strcpy (proc_at k'.procs i).name idle_name) _
            (λ name e1. on (first_process m i k' name c)))

  load_shell-IsKernel :
      (tf_ksp : ℕ) (k : Kernel)
      → IsKernel k
      → OnSome IsKernel (load_shell kernel_base ram_end user_entry archive tf_ksp k)
  unfolding load_shell
  load_shell-IsKernel tf_ksp k h =
      bind-OnSome (create_program kernel_base ram_end user_entry archive tf_ksp shell_file k) _
        (λ (i, k') e.
          let c = result_of e (create_program-Created tf_ksp shell_file k) in
          bind-OnSome (strcpy (proc_at k'.procs i).name shell_name) _
            (λ name e1. on (next_process k i k' name h c)))

  -- When `kernel_main` begins to call `yield`, its variables are in order.
  load_processes-IsKernel :
      (idle_tf shell_tf : ℕ) (m : Memory)
      → OnSome IsKernel (load_processes kernel_base ram_end user_entry archive idle_tf shell_tf m)
  unfolding load_processes
  load_processes-IsKernel idle_tf shell_tf m =
      bind-OnSome (load_idle kernel_base ram_end user_entry archive idle_tf (boot_kernel m)) _
        (λ k e. load_shell-IsKernel shell_tf k (result_of e (load_idle-IsKernel idle_tf m)))
