-- ===== src/Heap.antt =====
-- kernel/heap.c: the kernel's first-fit heap. A block header at an address is a cell; a read where
-- no header was ever written is a fault. `size_t` sums keep their wrap; a pointer sum stays inside
-- the heap and is not wrapped. The null pointer is 0.
pub mod Spans
pub mod Tiling
pub mod Refine
pub mod Correct
pub mod Taken
pub mod Live
pub mod Free
mod Tests
use riscv_os.Prelude.{
  u64, ℕ, zero, suc, ◌+◌, ◌-◌, ◌*◌, ◌/◌, ◌%◌, ◌^◌, Bool, true, false, ◌&&◌, Option, none, some, leb,
  ◌==◌, if◌then◌else◌,
}

-- `sizeof(Block)`: two words and an `int`, padded.
abbrev pub block_size : ℕ
block_size = 24

-- `ALIGN8`
abbrev pub align8 : ℕ → ℕ
align8 x = u64 (x + 7) / 8 * 8

pub record Block : Type 0 where
  pub size : ℕ
  pub next : ℕ
  pub free : Bool

abbrev pub block : ℕ → ℕ → Bool → Block
block size next free = record { size = size; next = next; free = free }

abbrev pub Cells : Type 0
Cells = ℕ → Option Block

unfoldable pub write : Cells → ℕ → Block → Cells
write c p b q = if q == p then some b else c q

-- `free_list` is the first block.
pub record Heap : Type 0 where
  pub free_list : ℕ
  pub cell : Cells

pub data Run (A : Type 0) : Type 0 where
  ok : A → Run A
  fault : Run A
  out_of_fuel : Run A

module _ (heap_start heap_end : ℕ) where
  unfoldable pub heap_init : Cells → Heap
  unfolding write
  heap_init c = record {
    free_list = heap_start;
    cell = write c heap_start (block (heap_end - heap_start - block_size) 0 true);
  }

-- The body of the loop at the block that fits: it is split if the rest holds a header and a word.
unfoldable pub take_block : ℕ → ℕ → Block → Cells → ℕ × Cells
unfolding write
take_block size curr b c = (
  curr + block_size,
  if leb (u64 (size + block_size + 8)) b.size
      then write
          (write c (curr + block_size + size) (block (b.size - size - block_size) b.next true)) curr
          (block size (curr + block_size + size) false)
      else write c curr (block b.size b.next false),
)

-- The loop over the blocks, and the null pointer behind the last.
unfoldable pub malloc_loop : ℕ → ℕ → ℕ → Cells → Run (ℕ × Cells)
unfolding take_block
malloc_loop zero size curr c = out_of_fuel
malloc_loop (suc fuel) size curr c = if curr == 0 then ok (0, c) else elim (c curr) [
  | none ↦ fault
  | some b ↦
      let rest = malloc_loop fuel size b.next c in
      if b.free && leb size b.size then ok (take_block size curr b c) else rest
]

unfoldable pub malloc : ℕ → ℕ → Heap → Run (ℕ × Heap)
unfolding malloc_loop
malloc fuel size h = elim (malloc_loop fuel (align8 size) h.free_list h.cell) [
  | ok (p, c) ↦ ok (p, record h { cell = c })
  | fault ↦ fault
  | out_of_fuel ↦ out_of_fuel
]

-- The step of `free` behind its first write, with the block as it stands then.
unfoldable pub coalesce : ℕ → Block → Cells → Run Cells
unfolding write
coalesce p b c = if b.next == 0 then ok c else elim (c b.next) [
  | none ↦ fault
  | some n ↦
      if n.free
      then ok (write c p (block (u64 (b.size + (block_size + n.size))) n.next true))
      else ok c
]

-- `free` at a header.
unfoldable pub free_block : ℕ → Cells → Run Cells
unfolding write coalesce
free_block p c = elim (c p) [
  | none ↦ fault
  | some b ↦ coalesce p (block b.size b.next true) (write c p (block b.size b.next true))
]

unfoldable pub free : ℕ → Heap → Run Heap
unfolding free_block
free ptr h = if ptr == 0 then ok h else elim (free_block (ptr - block_size) h.cell) [
  | ok c ↦ ok (record h { cell = c })
  | fault ↦ fault
  | out_of_fuel ↦ out_of_fuel
]
