-- ===== src/Paging.antt =====
-- kernel/page.c: SV39 page tables in physical memory. A table's entry is the word at the table's
-- address plus eight times its index. `none` is a PANIC. The flags of a mapping are the bits that
-- the callers combine; PTE_V is always among them, since `map_page` adds it.
pub mod Entry
pub mod Level
pub mod Walk
pub mod Map
pub mod Address
pub mod Leaf
mod Tests
use mathlib.Core.Option
use riscv_os.Prelude.{
  u64, ℕ, zero, suc, ◌+◌, ◌-◌, ◌*◌, ◌/◌, ◌%◌, ◌^◌, Bool, true, false, not, ◌&&◌, ◌||◌, Option, none,
  some, leb, ltb, ◌==◌, if◌then◌else◌,
}
use riscv_os.Frames.{Memory, page_size, store, clear, alloc_pages, free_page}

-- PTE_R, PTE_W, PTE_X and PTE_U
pub record Flags : Type 0 where
  pub r : Bool
  pub w : Bool
  pub x : Bool
  pub u : Bool

-- PTE_R | PTE_W | PTE_U
abbrev pub user_data_flags : Flags
user_data_flags = record { r = true; w = true; x = false; u = true }

-- PTE_R | PTE_W | PTE_X | PTE_U
abbrev pub user_page_flags : Flags
user_page_flags = record { r = true; w = true; x = true; u = true }

unfoldable pub bit : Bool → ℕ → ℕ
bit true n = n
bit false n = 0

-- `flags | PTE_V`
unfoldable pub flag_bits : Flags → ℕ
unfolding bit
flag_bits f = 1 + bit f.r 2 + bit f.w 4 + bit f.x 8 + bit f.u 16

-- `e & PTE_V`
abbrev pub valid : ℕ → Bool
valid e = e % 2 == 1

-- `e & PTE_U`
abbrev pub user : ℕ → Bool
user e = e / 16 % 2 == 1

-- `e & (PTE_R | PTE_W | PTE_X)`
abbrev pub permits : ℕ → Bool
permits e = not (e / 2 % 8 == 0)

-- `(pte >> 10) << 12`
abbrev pub pte_to_pa : ℕ → ℕ
pte_to_pa e = u64 (e / 1024 * 4096)

-- `(pa >> 12) << 10`; the bits below are free for the flags.
abbrev pub pa_to_pte : ℕ → ℕ
pa_to_pte pa = pa / 4096 * 1024

-- `PX(level, va)`, and `vpn2`, `vpn1`, `vpn0` of `map_page`
abbrev pub px2 : ℕ → ℕ
px2 va = va / 1073741824 % 512

abbrev pub px1 : ℕ → ℕ
px1 va = va / 2097152 % 512

abbrev pub px0 : ℕ → ℕ
px0 va = va / 4096 % 512

-- `&pt[i]`
abbrev pub slot : ℕ → ℕ → ℕ
slot pt i = pt + 8 * i

abbrev pub store_word : ℕ → ℕ → Memory → Memory
store_word a v m = record m { word = store m.word a v }

module _ (ram_end owner : ℕ) where
  -- One level of `map_page`: the next table, made if there is none.
  unfoldable pub next_table : ℕ → ℕ → Memory → Option (ℕ × Memory)
  unfolding store clear
  next_table pt i m =
      if not (valid (m.word (slot pt i)))
      then elim (alloc_pages ram_end owner 1 m) [
        | none ↦ none
        | some (page, m') ↦
            (let m'' =
                store_word (slot pt i) (pa_to_pte page + 1)
                  (record m' { word = clear m'.word page page_size }) in
              some (pte_to_pa (m''.word (slot pt i)), m''))
      ]
      else some (pte_to_pa (m.word (slot pt i)), m)

  -- Level 0 of `map_page`.
  unfoldable pub set_leaf : ℕ → ℕ → ℕ → Flags → Memory → Memory
  unfolding store flag_bits
  set_leaf pt va pa flags m = store_word (slot pt (px0 va)) (pa_to_pte pa + flag_bits flags) m

  unfoldable pub map_page : ℕ → ℕ → ℕ → Flags → Memory → Option Memory
  unfolding next_table set_leaf
  map_page root va pa flags m =
      if not (va % page_size == 0) || not (pa % page_size == 0)
      then none
      else elim (next_table root (px2 va) m) [
        | none ↦ none
        | some (t1, m1) ↦ elim (next_table t1 (px1 va) m1) [
          | none ↦ none
          | some (t0, m0) ↦ some (set_leaf t0 va pa flags m0)
        ]
      ]

  -- The rounds left and `offset`.
  unfoldable pub map_range_loop : ℕ → ℕ → ℕ → ℕ → ℕ → Flags → Memory → Option Memory
  unfolding map_page
  map_range_loop pt pa_start va_start zero offset perm m = some m
  map_range_loop pt pa_start va_start (suc n) offset perm m =
      elim (map_page pt (u64 (va_start + offset)) (u64 (pa_start + offset)) perm m) [
        | none ↦ none
        | some m' ↦ map_range_loop pt pa_start va_start n (offset + page_size) perm m'
      ]

  unfoldable pub map_mmio_range : ℕ → ℕ → ℕ → ℕ → Flags → Memory → Option Memory
  unfolding map_range_loop
  map_mmio_range pt pa_start va_start len perm m =
      map_range_loop pt pa_start va_start ((len + (page_size - 1)) / page_size) 0 perm m

  abbrev pub kernel_flags : Flags
  kernel_flags = record { r = true; w = true; x = true; u = false }

  abbrev pub device_flags : Flags
  device_flags = record { r = true; w = true; x = false; u = false }

  -- `paging_init`, for the linker's `__kernel_base` and `__heap_end` and the device window; the
  -- new root table is returned.
  unfoldable pub paging_init :
      (kernel_base heap_end mmio_base mmio_len : ℕ) → Memory → Option (ℕ × Memory)
  unfolding map_range_loop map_mmio_range
  paging_init kernel_base heap_end mmio_base mmio_len m = elim (alloc_pages ram_end owner 1 m) [
    | none ↦ none
    | some (root, m1) ↦
        elim (map_range_loop root kernel_base kernel_base
          ((heap_end - kernel_base + (page_size - 1)) / page_size) 0 kernel_flags m1) [
            | none ↦ none
            | some m2 ↦
                Option.map (λ m3. (root, m3))
                  (map_mmio_range root mmio_base mmio_base mmio_len device_flags m2)
          ]
  ]

unfoldable pub unmap_page : ℕ → ℕ → Memory → Option Memory
unfolding store
unmap_page root va m =
    if not (va % page_size == 0)
    then none
    else if not (valid (m.word (slot root (px2 va))))
    then some m
    else (let t1 = pte_to_pa (m.word (slot root (px2 va))) in
        if not (valid (m.word (slot t1 (px1 va))))
        then some m
        else some (store_word (slot (pte_to_pa (m.word (slot t1 (px1 va)))) (px0 va)) 0 m))

-- The physical page of a virtual address, and 0 if there is none.
unfoldable pub walk_page : ℕ → ℕ → Memory → ℕ
walk_page root va m =
    let e2 = m.word (slot root (px2 va)) in
    if not (valid e2)
    then 0
    else (let e1 = m.word (slot (pte_to_pa e2) (px1 va)) in
        if not (valid e1)
        then 0
        else (let e0 = m.word (slot (pte_to_pa e1) (px0 va)) in
            if not (valid e0) then 0 else pte_to_pa e0))

abbrev pub maxva : ℕ
maxva = 2 ^ 39

-- `walk` with `alloc` 0: the address of the entry, and 0 if a table is missing.
unfoldable pub walk : ℕ → ℕ → Memory → Option ℕ
walk root va m =
    if leb maxva va
    then none
    else (let e2 = m.word (slot root (px2 va)) in
        if not (valid e2)
        then some 0
        else (let e1 = m.word (slot (pte_to_pa e2) (px1 va)) in
            if not (valid e1) then some 0 else some (slot (pte_to_pa e1) (px0 va))))

-- What `walkaddr` does with the entry.
unfoldable pub leaf_address : ℕ → ℕ → ℕ
leaf_address va e =
    if not (valid e) then 0 else if not (permits e) then 0 else u64 (pte_to_pa e + va % 4096)

-- `kernel_base` is the linker's `__kernel_base`.
unfoldable pub walkaddr : ℕ → ℕ → ℕ → Memory → Option ℕ
unfolding walk leaf_address
walkaddr kernel_base root va m = if leb kernel_base va then some 0 else elim (walk root va m) [
  | none ↦ none
  | some a ↦ if a == 0 then some 0 else some (leaf_address va (m.word a))
]
