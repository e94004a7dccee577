-- ===== src/Boot.antt =====
-- kernel/kernel.c: the part of `kernel_main` that creates the idle process and the shell. What comes
-- before it sets up memory and devices, and behind it `yield` is called again and again.
pub mod Started
use riscv_os.Prelude.{true, ℕ, Option, none, some, List, [], ◌∷◌, ◌>>=◌, length, drop, replicate}
use riscv_os.Text.{strcpy}
use riscv_os.Frames.{Memory}
use riscv_os.Process.{Proc, Kernel, empty_proc, procs_max, proc_at, set_proc}
use riscv_os.Archive.{tarfs_lookup}
use riscv_os.Elf.{extract_to_create}

-- The variables after `bss_init`, with the memory that the setup leaves.
abbrev pub boot_kernel : Memory → Kernel
boot_kernel m = record {
  procs = replicate procs_max empty_proc;
  current = none;
  idle = 0;
  process_count = 0;
  g_startup = true;
  memory = m;
}

abbrev pub idle_name : List ℕ
idle_name = b'i' ∷ b'd' ∷ b'l' ∷ b'e' ∷ 0 ∷ []

abbrev pub idle_file : List ℕ
idle_file = b'i' ∷ b'd' ∷ b'l' ∷ b'e' ∷ b'.' ∷ b'e' ∷ b'l' ∷ b'f' ∷ 0 ∷ []

abbrev pub shell_name : List ℕ
shell_name = b's' ∷ b'h' ∷ b'e' ∷ b'l' ∷ b'l' ∷ 0 ∷ []

abbrev pub shell_file : List ℕ
shell_file = b's' ∷ b'h' ∷ b'e' ∷ b'l' ∷ b'l' ∷ b'.' ∷ b'e' ∷ b'l' ∷ b'f' ∷ 0 ∷ []

-- `tf_ksp` is the address of the frame in the new process's `tf_stack`.
module _ (kernel_base ram_end user_entry : ℕ) (archive : List ℕ) where
  -- A file that is not found ends in a PANIC.
  unfoldable pub create_program : (tf_ksp : ℕ) → List ℕ → Kernel → Option (ℕ × Kernel)
  unfolding extract_to_create
  create_program tf_ksp file k = tarfs_lookup (length archive) archive file >>= λ found.
      found >>= λ (at, size).
      extract_to_create kernel_base ram_end user_entry tf_ksp (drop at archive) k

  unfoldable pub load_idle : ℕ → Kernel → Option Kernel
  unfolding create_program
  load_idle tf_ksp k = create_program tf_ksp idle_file k >>= λ (i, k').
      strcpy (proc_at k'.procs i).name idle_name >>= λ name. some (record k' {
        procs = set_proc k'.procs i (record (proc_at k'.procs i) { pid = 0; name = name });
        current = some i;
        idle = i;
      })

  unfoldable pub load_shell : ℕ → Kernel → Option Kernel
  unfolding create_program
  load_shell tf_ksp k = create_program tf_ksp shell_file k >>= λ (i, k').
      strcpy (proc_at k'.procs i).name shell_name >>= λ name.
      some (record k' { procs = set_proc k'.procs i (record (proc_at k'.procs i) { name = name }) })

  unfoldable pub load_processes : (idle_tf shell_tf : ℕ) → Memory → Option Kernel
  unfolding load_idle load_shell
  load_processes idle_tf shell_tf m =
      load_idle idle_tf (boot_kernel m) >>= λ k. load_shell shell_tf k
