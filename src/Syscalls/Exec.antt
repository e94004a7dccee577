-- ===== src/Syscalls/Exec.antt =====
-- kernel/syscall.c: `sys_exec`, with `strip_elf_extension` of kernel/process.c.
use riscv_os.Prelude.{
  u64, ℕ, zero, suc, ◌+◌, ◌-◌, ◌*◌, ◌/◌, ℤ, pos, negsuc, Bool, Option, none, some, List, [], ◌∷◌,
  ◌++◌, ltb, ◌==◌, if◌then◌else◌, ◌>>=◌, take, drop, set, replicate,
}
use riscv_os.Text.{strcmp, strncpy, strstr}
use riscv_os.Frames.{page_size, alloc_pages, free_page}
use riscv_os.Process.{
  Proc, Kernel, TrapFrame, reg_ra, set_reg, proc_at, set_proc, proc_name_max_len,
}
use riscv_os.Scheduler.{yield}
use riscv_os.Image.{Symbols, owner_of}
use riscv_os.Teardown.{user_base, process_free_userspace}
use riscv_os.Elf.{is_name, extract_to_exec}
use riscv_os.Archive.{tarfs_lookup}
use riscv_os.Arguments.{Arguments, max_arg_length, setup_user_arguments}
use riscv_os.Syscalls.Console.{user_bytes}

abbrev pub elf_extension : List ℕ
elf_extension = b'.' ∷ b'e' ∷ b'l' ∷ b'f' ∷ 0 ∷ []

-- `strncpy` of at most `size - 1` bytes, and the terminator.
unfoldable pub copy_text : List ℕ → List ℕ → ℕ → Option (List ℕ)
copy_text out text size = strncpy out text (size - 1) >>= λ s. some (take (size - 1) s ++ (0 ∷ []))

-- For `dot`, a position or null.
unfoldable pub cut_at : List ℕ → Option ℕ → Option (List ℕ)
cut_at name none = some name
cut_at name (some dot) = strcmp (drop dot name) elf_extension >>= λ order.
    some (if is_name order then set name dot 0 else name)

-- The name that is left, in `out_name` of `maxlen` bytes; the pointers are not null here.
unfoldable pub strip_elf_extension : List ℕ → List ℕ → ℕ → Option (List ℕ)
unfolding copy_text cut_at
strip_elf_extension progname out_name maxlen =
    if maxlen == 0
    then some out_name
    else (copy_text out_name progname maxlen >>= λ name.
        strstr name elf_extension >>= λ dot. cut_at name dot)

-- The number of 8 bytes at a virtual address.
unfoldable pub user_word : (ℕ → ℕ) → ℕ → ℕ → ℕ
user_word user va zero = 0
user_word user va (suc n) = user va + 256 * user_word user (u64 (va + 1)) n

-- The loop of step 2: the rounds left, and the address of `argv[i]`.
unfoldable pub copy_argv : (ℕ → ℕ) → ℕ → ℕ → Option (List (List ℕ))
unfolding copy_text user_bytes user_word
copy_argv user zero at = some []
copy_argv user (suc n) at =
    copy_text (replicate max_arg_length 0) (user_bytes user (user_word user at 8) max_arg_length)
      max_arg_length
    >>= λ row. copy_argv user n (u64 (at + 8)) >>= λ rows. some (row ∷ rows)

-- `argc > 1`, and no more rows than the page has.
unfoldable pub read_argv : (ℕ → ℕ) → ℕ → ℤ → Option (List (List ℕ))
unfolding copy_argv
read_argv user argv (negsuc n) = some []
read_argv user argv (pos argc) =
    if ltb 1 argc
    then (if ltb (page_size / max_arg_length) argc then none else copy_argv user argc argv)
    else some []

-- Step 8a: the stack pointer, `argv_ptr`, and what is stored.
unfoldable pub place_arguments : Symbols → List (List ℕ) → Option (ℕ × ℕ × Option Arguments)
place_arguments s [] = some (s.g_user_stack_top, 0, none)
place_arguments s (row ∷ rows) =
    setup_user_arguments s.g_user_stack_bottom (row ∷ rows) s.g_user_stack_top >>= λ a.
    some (a.sp, a.sp, some a)

-- Steps 6 and 9: the name, the frame and the arguments of the process.
abbrev pub exec_proc : (user_return sp argc argv_ptr : ℕ) → List ℕ → Proc → Proc
exec_proc user_return sp argc argv_ptr name p = record p {
  name = name;
  tf = some (record { regs = set_reg (λ _. 0) reg_ra user_return; sp = sp; epc = user_base });
  argc = argc;
  argv_ptr = argv_ptr;
}

-- How `sys_exec` ends: with its error, or with the new program in place and `yield` called, which has
-- switched to another process or not. The arguments are stored on the new stack.
pub data ExecEnd : Type 0 where
  failed : ℤ → Kernel → ExecEnd
  replaced : Option Arguments → Kernel → Bool → ExecEnd

-- Its parameters: the linker's symbols, the address of `user_return`, the frame at the end of the
-- process's `tf_stack`, the fuel for page tables, `g_user_stack_top` of the old program.
module _ (kernel_base ram_end user_return : ℕ) (old_frame : TrapFrame) (fuel stack_top : ℕ) where
  -- Steps 4 and 5, for the file's bytes.
  unfoldable pub replace_program : List ℕ → Kernel → Option (Symbols × ℕ × Kernel)
  unfolding process_free_userspace extract_to_exec
  replace_program elf k = k.current >>= λ cur.
      process_free_userspace fuel stack_top (proc_at k.procs cur) k.memory >>= λ (p, m).
      extract_to_exec kernel_base ram_end old_frame elf
        (record k { procs = set_proc k.procs cur p; memory = m })

  -- Steps 6 to 9 and the `yield`.
  unfoldable pub start_program :
      List ℕ → List (List ℕ) → ℕ → ℕ → Symbols × ℕ × Kernel → Option ExecEnd
  unfolding strip_elf_extension place_arguments
  start_program progname rows argc argv_buf (s, cur, k) =
      strip_elf_extension progname (proc_at k.procs cur).name proc_name_max_len >>= λ name.
      place_arguments s rows >>= λ (sp, argv_ptr, stored).
      yield (record k {
        procs =
            set_proc k.procs cur
              (exec_proc user_return sp argc argv_ptr name (proc_at k.procs cur));
        memory = free_page argv_buf k.memory;
      })
      >>= λ (k', switched). some (replaced stored k' switched)

  -- Steps 2 to 9, for the offset of the file in the archive.
  unfoldable pub run_program : (ℕ → ℕ) → List ℕ → List ℕ → ℕ → ℤ → ℕ → ℕ → Kernel → Option ExecEnd
  unfolding read_argv replace_program start_program owner_of
  run_program user archive progname_buf argv argc argc_bits at k =
      alloc_pages ram_end (owner_of k) 1 k.memory >>= λ (argv_buf, m).
      read_argv user argv argc >>= λ rows.
      replace_program (drop at archive) (record k { memory = m }) >>= λ replaced.
      start_program progname_buf rows argc_bits argv_buf replaced

  -- `progname` is the bytes from its address on; `argc` is stored as an `int` of 32 bits.
  unfoldable pub sys_exec : (ℕ → ℕ) → ℕ → List ℕ → List ℕ → ℕ → ℤ → ℕ → Kernel → Option ExecEnd
  unfolding copy_text run_program
  sys_exec user archive_fuel archive progname argv argc argc_bits k =
      copy_text (replicate proc_name_max_len 0) progname proc_name_max_len >>= λ progname_buf.
      tarfs_lookup archive_fuel archive progname >>= λ file. elim file [
        | none ↦ some (failed (negsuc 0) k)
        | some (at, size) ↦ run_program user archive progname_buf argv argc argc_bits at k
      ]
