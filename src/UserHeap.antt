-- ===== src/UserHeap.antt =====
-- user/lib/malloc.c and user/lib/sbrk.c: the heap of a program. A block's header is at its address,
-- the null pointer is 0. `size_t` sums keep their wrap; a pointer sum is not wrapped.

pub mod FreeList
pub mod Links
pub mod Take
pub mod Fit
pub mod Correct
mod Tests
use riscv_os.Prelude.{
  u64, ℕ, zero, suc, ◌+◌, ◌-◌, ◌*◌, ◌/◌, ◌%◌, ◌^◌, ℤ, pos, negsuc, Bool, true, false, Option, none,
  some, leb, ◌==◌, if◌then◌else◌, ◌>>=◌,
}

-- `block_t`
pub record Block : Type 0 where
  pub size : ℕ
  pub next : ℕ

abbrev pub block_size : ℕ
block_size = 16

-- `free_list` of malloc.c, `heap_end` of sbrk.c, and the headers in memory
pub record UserHeap : Type 0 where
  pub block : ℕ → Block
  pub free_list : ℕ
  pub heap_end : ℕ

unfoldable pub write : (ℕ → Block) → ℕ → Block → ℕ → Block
write h p b q = if q == p then b else h q

-- `if (prev) prev->next = x; else free_list = x;`
unfoldable pub relink : ℕ → ℕ → UserHeap → UserHeap
unfolding write
relink prev x h =
    if prev == 0
    then record h { free_list = x }
    else record h { block = write h.block prev (record (h.block prev) { next = x }) }

-- The body of the loop at the block that fits.
unfoldable pub take_block : (prev curr size : ℕ) → UserHeap → UserHeap
unfolding relink
take_block prev curr size h =
    let b = h.block curr in
    let rest = curr + block_size + size in
    if leb (u64 (size + (block_size + 8))) b.size
    then relink prev rest (record h {
      block =
          write (write h.block rest (record { size = b.size - size - block_size; next = b.next }))
            curr (record b { size = size });
    })
    else relink prev b.next h

-- The loop, with fuel for its blocks; the inner `none` is the end of the list.
unfoldable pub search_list : (fuel prev curr size : ℕ) → UserHeap → Option (Option (ℕ × UserHeap))
unfolding take_block
search_list zero prev curr size h = none
search_list (suc fuel) prev curr size h =
    let rest = search_list fuel curr (h.block curr).next size h in
    if curr == 0
    then some none
    else if leb size (h.block curr).size
    then some (some (curr + block_size, take_block prev curr size h))
    else rest

-- The end of `sbrk`, for the result of the system call and `heap_end`.
unfoldable pub sbrk_end : ℤ → (end increment : ℕ) → UserHeap → ℕ × UserHeap
sbrk_end (negsuc n) end increment h = (2 ^ 64 - 1, record h { heap_end = end })
sbrk_end (pos n) end increment h = (end, record h { heap_end = u64 (end + increment) })

-- `heap_start` is the linker's `__user_heap_start`, and `syscall` what the kernel returns for an
-- increment.
module _ (heap_start : ℕ) (syscall : ℕ → ℤ) where
  abbrev pub heap_end_of : UserHeap → ℕ
  heap_end_of h = if h.heap_end == 0 then heap_start else h.heap_end

  unfoldable pub sbrk : ℕ → UserHeap → ℕ × UserHeap
  unfolding sbrk_end
  sbrk increment h = sbrk_end (syscall increment) (heap_end_of h) increment h

  -- The end of `malloc`, for what `sbrk` returns; 0 is NULL.
  unfoldable pub new_block : ℕ → ℕ × UserHeap → ℕ × UserHeap
  new_block size (mem, h) = if mem == 2 ^ 64 - 1 then (0, h) else (
    mem + block_size,
    record h { block = write h.block mem (record (h.block mem) { size = size }) },
  )

  unfoldable pub malloc : ℕ → ℕ → UserHeap → Option (ℕ × UserHeap)
  unfolding search_list sbrk new_block
  malloc fuel n h =
      let size = u64 (n + 7) / 8 * 8 in
      search_list fuel 0 h.free_list size h >>= λ found. elim found [
        | none ↦ some (new_block size (sbrk (u64 (size + block_size)) h))
        | some r ↦ some r
      ]

unfoldable pub free : ℕ → UserHeap → UserHeap
unfolding write
free ptr h = if ptr == 0 then h else record h {
  block =
      write h.block (ptr - block_size) (record (h.block (ptr - block_size)) { next = h.free_list });
  free_list = ptr - block_size;
}
