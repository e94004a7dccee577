-- ===== src/Image.antt =====
-- kernel/process.c: `create_init_process` and `exec_process`, which give a process its page table,
-- its image, its stack and its first heap page. `none` is a PANIC. The image is in whole pages, as
-- `extract_flat_binary_from_elf` makes it, so its bytes are copied by words.
use riscv_os.Prelude.{
  u64, ℕ, zero, suc, ◌+◌, ◌-◌, ◌*◌, ◌/◌, ◌&&◌, Option, none, some, leb, ltb, ◌==◌, if◌then◌else◌,
  ◌>>=◌,
}
use riscv_os.Frames.{Memory, page_size, clear, alloc_pages}
use riscv_os.Paging.{kernel_flags, user_data_flags, user_page_flags, map_page, map_range_loop}
use riscv_os.Process.{
  Proc, Kernel, TrapFrame, reg_ra, set_reg, proc_at, set_proc, find_unused, runnable, running,
}
use riscv_os.Teardown.{user_base}

-- The globals that elf-loader.c sets from the program's symbols.
pub record Symbols : Type 0 where
  pub g_user_stack_top : ℕ
  pub g_user_stack_bottom : ℕ
  pub g_user_heap_start : ℕ

-- `memcpy` of `n` bytes between pages that do not overlap.
unfoldable pub copy : (ℕ → ℕ) → ℕ → ℕ → ℕ → ℕ → ℕ
copy w dest src n b = if leb dest b && ltb b (dest + n) then w (src + (b - dest)) else w b

-- `current_proc ? current_proc->pid : 0`
unfoldable pub owner_of : Kernel → ℕ
owner_of k = elim k.current [ none ↦ 0 | some cur ↦ (proc_at k.procs cur).pid ]

-- The bytes of page `i` of the image that are copied.
abbrev pub page_bytes : ℕ → ℕ → ℕ → ℕ
page_bytes image_size num_pages i =
    if i + 1 == num_pages then image_size - i * page_size else page_size

-- `kernel_base` and `ram_end` are the linker's `__kernel_base` and `__free_ram_end`.
module _ (kernel_base ram_end owner : ℕ) where
  -- The loop over the kernel's pages.
  unfoldable pub map_kernel : ℕ → Memory → Option Memory
  map_kernel pt m =
      map_range_loop ram_end owner pt kernel_base kernel_base
        ((ram_end - kernel_base + (page_size - 1)) / page_size) 0 (kernel_flags ram_end owner) m

  -- The loop over the image's pages: the rounds left, and `i`.
  unfoldable pub load_pages : (pt image image_size num_pages : ℕ) → ℕ → ℕ → Memory → Option Memory
  unfolding copy
  load_pages pt image image_size num_pages zero i m = some m
  load_pages pt image image_size num_pages (suc n) i m =
      alloc_pages ram_end owner 1 m >>= λ (page, m1).
      map_page ram_end owner pt (u64 (user_base + i * page_size)) page user_page_flags (record m1 {
        word = copy m1.word page (u64 (image + i * page_size)) (page_bytes image_size num_pages i);
      })
      >>= λ m2. load_pages pt image image_size num_pages n (i + 1) m2

  -- The loop over the stack's pages: the rounds left, and `va`.
  unfoldable pub map_stack : ℕ → ℕ → ℕ → Memory → Option Memory
  map_stack pt zero va m = some m
  map_stack pt (suc n) va m = alloc_pages ram_end owner 1 m >>= λ (pa, m1).
      map_page ram_end owner pt va pa user_data_flags m1 >>= λ m2.
      map_stack pt n (u64 (va + page_size)) m2

  -- From the bottom up to and with the top.
  abbrev pub stack_rounds : Symbols → ℕ
  stack_rounds s =
      if ltb s.g_user_stack_top s.g_user_stack_bottom
      then 0
      else (s.g_user_stack_top - s.g_user_stack_bottom) / page_size + 1

  unfoldable pub map_heap : ℕ → ℕ → Memory → Option Memory
  unfolding clear
  map_heap pt heap_start m = alloc_pages ram_end owner 1 m >>= λ (page, m1).
      map_page ram_end owner pt heap_start page user_data_flags m1 >>= λ m2.
      some (record m2 { word = clear m2.word page page_size })

  abbrev pub pages_of : ℕ → ℕ
  pages_of image_size = (image_size + page_size - 1) / page_size

  -- The steps that both functions share: the page table and all that it maps.
  unfoldable pub build_space : Symbols → ℕ → ℕ → Memory → Option (ℕ × Memory)
  unfolding map_kernel load_pages map_stack map_heap
  build_space s image image_size m = alloc_pages ram_end owner 1 m >>= λ (pt, m1).
      map_kernel pt m1 >>= λ m2.
      load_pages pt image image_size (pages_of image_size) (pages_of image_size) 0 m2 >>= λ m3.
      map_stack pt (stack_rounds s) s.g_user_stack_bottom m3 >>= λ m4.
      map_heap pt s.g_user_heap_start m4 >>= λ m5. some (pt, m5)

  abbrev pub with_space : Symbols → ℕ → ℕ → ℕ → Proc → Proc
  with_space s image image_size pt p = record p {
    page_table = pt;
    heap_end = u64 (s.g_user_heap_start + page_size);
    user_stack_top = s.g_user_stack_top;
    entry_point = user_base;
    image_pa = image;
    image_npages = pages_of image_size;
  }

-- The frame that a new process starts from; `user_entry` is the address of that function.
abbrev pub init_frame : ℕ → Symbols → TrapFrame
init_frame user_entry s = record {
  regs = set_reg (λ _. 0) reg_ra user_entry;
  sp = s.g_user_stack_top;
  epc = user_base;
}

-- `if (current_proc != NULL)`
abbrev pub with_parent : Kernel → Option ℕ → Proc → Proc
with_parent k none p = p
with_parent k (some cur) p = record p { parent = some cur; parent_pid = (proc_at k.procs cur).pid }

-- `tf_ksp` is the address of the frame in the process's `tf_stack`.
unfoldable pub create_init_process :
    (kernel_base ram_end user_entry tf_ksp : ℕ) → Symbols → ℕ → ℕ → Kernel → Option (ℕ × Kernel)
unfolding build_space owner_of
create_init_process kernel_base ram_end user_entry tf_ksp s image image_size k =
    find_unused k.procs 0 >>= λ i.
    build_space kernel_base ram_end (owner_of k) s image image_size k.memory >>= λ (pt, m). some (
      i,
      record k {
        procs =
            set_proc k.procs i
              (record (with_space kernel_base ram_end (owner_of k) s image image_size pt
                (with_parent k k.current (proc_at k.procs i))) {
                  pid = 1 + i;
                  state = runnable;
                  tf = some (init_frame user_entry s);
                  sp = tf_ksp;
                });
        process_count = k.process_count + 1;
        memory = m;
      },
    )

-- `old_frame` is what stands at the end of the process's `tf_stack`.
unfoldable pub exec_process :
    (kernel_base ram_end : ℕ) → Symbols → TrapFrame → ℕ → ℕ → Kernel → Option (ℕ × Kernel)
unfolding build_space owner_of
exec_process kernel_base ram_end s old_frame image image_size k = k.current >>= λ cur.
    build_space kernel_base ram_end (owner_of k) s image image_size k.memory >>= λ (pt, m). some (
      cur,
      record k {
        procs =
            set_proc k.procs cur
              (record (with_space kernel_base ram_end (owner_of k) s image image_size pt
                (proc_at k.procs cur)) { state = running; tf = some old_frame });
        memory = m;
      },
    )
