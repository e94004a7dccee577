-- ===== src/Syscalls/Copy.antt =====
-- kernel/user.c: `copy_to_user`, and the calls of kernel/syscall.c that give a struct to the caller.
-- Each byte is stored before the next address is translated.
use riscv_os.Prelude.{
  u64, ℕ, zero, suc, ◌+◌, ◌-◌, ◌*◌, ◌/◌, ◌%◌, ◌^◌, ℤ, pos, negsuc, Option, some, List, [], ◌∷◌,
  ◌++◌, ◌==◌, if◌then◌else◌, ◌>>=◌,
}
use riscv_os.Frames.{Memory, page_allocator_free_pages}
use riscv_os.Paging.{store_word, walkaddr}
use riscv_os.Process.{Kernel, proc_at}
use riscv_os.Clock.{DateTime, compute_datetime}

-- A word with another byte at place `i`.
unfoldable pub put_byte : ℕ → ℕ → ℕ → ℕ
put_byte v i b = v - v / 256 ^ i % 256 * 256 ^ i + b % 256 * 256 ^ i

-- A byte is stored at a physical address.
unfoldable pub store_byte : ℕ → ℕ → Memory → Memory
unfolding put_byte
store_byte pa b m = store_word (pa / 8 * 8) (put_byte (m.word (pa / 8 * 8)) (pa % 8) b) m

-- The result, and the memory.
unfoldable pub copy_to_user : ℕ → ℕ → ℕ → List ℕ → Memory → Option (ℤ × Memory)
unfolding store_byte
copy_to_user kernel_base pt dst [] m = some (pos 0, m)
copy_to_user kernel_base pt dst (b ∷ bytes) m = walkaddr kernel_base pt dst m >>= λ pa.
    let rest = copy_to_user kernel_base pt (u64 (dst + 1)) bytes (store_byte pa b m) in
    if pa == 0 then some (negsuc 0, m) else rest

-- The `n` bytes of a number in memory.
unfoldable pub le_bytes : ℕ → ℕ → List ℕ
le_bytes zero v = []
le_bytes (suc n) v = v % 256 ∷ le_bytes n (v / 256)

-- `struct sysinfo`
unfoldable pub sysinfo_bytes : ℕ → ℕ → List ℕ
unfolding le_bytes
sysinfo_bytes total_pages free_pages = le_bytes 8 total_pages ++ le_bytes 8 free_pages

-- `total_pages` is what `page_allocator_total_pages` returns.
unfoldable pub sys_sysinfo : (kernel_base total_pages : ℕ) → ℕ → Kernel → Option (ℤ × Memory)
unfolding copy_to_user sysinfo_bytes
sys_sysinfo kernel_base total_pages arg0 k = k.current >>= λ cur.
    copy_to_user kernel_base (proc_at k.procs cur).page_table arg0
      (sysinfo_bytes total_pages (page_allocator_free_pages k.memory)) k.memory

-- `struct DateTime`, seven `int`s
unfoldable pub datetime_bytes : DateTime → List ℕ
unfolding le_bytes
datetime_bytes dt =
    le_bytes 4 dt.year
    ++ (le_bytes 4 dt.month
        ++ (le_bytes 4 dt.day
            ++ (le_bytes 4 dt.hour
                ++ (le_bytes 4 dt.minute ++ (le_bytes 4 dt.second ++ le_bytes 4 dt.weekday)))))

-- For the epoch of the build and what `get_time` reads.
unfoldable pub sys_time : (kernel_base : ℕ) → Option ℕ → ℕ → ℕ → Kernel → Option (ℤ × Memory)
unfolding copy_to_user datetime_bytes
sys_time kernel_base base_epoch ticks arg0 k = compute_datetime base_epoch ticks >>= λ dt.
    k.current >>= λ cur.
    copy_to_user kernel_base (proc_at k.procs cur).page_table arg0 (datetime_bytes dt) k.memory
