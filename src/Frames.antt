-- ===== src/Frames.antt =====
-- kernel/page.c (the page allocator) and kernel/alloc-tracker.c. Physical memory is a function from
-- the address of a 64-bit word to its value. `none` is a PANIC, which halts the machine. The kernel
-- maps physical memory one to one, so a physical address is used as a pointer.
pub mod Counted
pub mod Tracker
pub mod Chain
pub mod Handed
pub mod Alloc
pub mod Release
mod Tests
use Prim.Native.String.{String}
use riscv_os.Prelude.{
  u64, ℕ, zero, suc, ◌+◌, ◌-◌, ◌*◌, ◌%◌, ◌^◌, Bool, true, false, not, ◌&&◌, ◌||◌, Option, none,
  some, List, [], ◌∷◌, leb, ltb, ◌==◌, if◌then◌else◌,
}

abbrev pub page_size : ℕ
page_size = 4096

-- `alloc_track_t`
pub record AllocTrack : Type 0 where
  pub used : Bool
  pub pa : ℕ
  pub npages : ℕ
  pub owner : ℕ
  pub tag : Option String

-- The words of physical memory, the variables of page.c and the table of alloc-tracker.c.
pub record Memory : Type 0 where
  pub word : ℕ → ℕ
  pub free_list : ℕ
  pub next_paddr : ℕ
  pub g_free_pages : ℕ
  pub alloc_table : List AllocTrack
  pub alloc_table_count : ℕ

-- A `uint64_t` or `size_t` counter goes down with a wrap.
abbrev pub dec64 : ℕ → ℕ
dec64 n = u64 (n + (2 ^ 64 - 1))

abbrev pub inc64 : ℕ → ℕ
inc64 n = u64 (n + 1)

-- One word is stored.
unfoldable pub store : (ℕ → ℕ) → ℕ → ℕ → ℕ → ℕ
store w a v b = if b == a then v else w b

-- `memset` of `n` bytes to 0, at a word boundary and for whole words.
unfoldable pub clear : (ℕ → ℕ) → ℕ → ℕ → ℕ → ℕ
clear w pa n b = if leb pa b && ltb b (pa + n) then 0 else w b

-- The loop of `track_alloc`: the table after, and whether an unused entry was found.
unfoldable pub fill_entry : AllocTrack → List AllocTrack → List AllocTrack × Bool
fill_entry e [] = ([], false)
fill_entry e (x ∷ xs) =
    let (xs', found) = fill_entry e xs in if not x.used then (e ∷ xs, true) else (x ∷ xs', found)

abbrev pub with_table : Memory → List AllocTrack × Bool → ℕ → Memory
with_table m (t, found) n = record m {
  alloc_table = t;
  alloc_table_count = if found then n else m.alloc_table_count;
}

unfoldable pub track_alloc : ℕ → ℕ → ℕ → Option String → Memory → Memory
unfolding fill_entry
track_alloc pa npages owner tag m =
    with_table m
      (fill_entry (record { used = true; pa = pa; npages = npages; owner = owner; tag = tag })
        m.alloc_table)
      (inc64 m.alloc_table_count)

unfoldable pub is_entry : ℕ → ℕ → AllocTrack → Bool
is_entry pa npages x = x.used && (x.pa == pa && x.npages == npages)

-- The loop of `track_free`.
unfoldable pub unfill_entry : ℕ → ℕ → List AllocTrack → List AllocTrack × Bool
unfolding is_entry
unfill_entry pa npages [] = ([], false)
unfill_entry pa npages (x ∷ xs) =
    let (xs', found) = unfill_entry pa npages xs in
    if is_entry pa npages x then (record x { used = false } ∷ xs, true) else (x ∷ xs', found)

unfoldable pub track_free : ℕ → ℕ → Memory → Memory
unfolding unfill_entry
track_free pa npages m =
    with_table m (unfill_entry pa npages m.alloc_table) (dec64 m.alloc_table_count)

-- The head of the free list, and 0 if it is empty. The link is the first word of the page.
unfoldable pub alloc_free_list : Memory → ℕ × Memory
alloc_free_list m = if m.free_list == 0 then (0, m) else (
  m.free_list,
  record m { free_list = m.word m.free_list; g_free_pages = dec64 m.g_free_pages },
)

-- The end of every branch of `alloc_pages`: the bytes are cleared and one page is tracked.
unfoldable pub hand_out : ℕ → ℕ → ℕ → Memory → Memory
unfolding clear track_alloc
hand_out pa n owner m =
    track_alloc pa 1 owner (some "alloc_pages")
      (record m { word = clear m.word pa (n * page_size) })

-- `free_ram_end` is the linker's `__free_ram_end`, and `owner` the pid of the running process, or
-- 0. A PANIC halts before the store to `next_paddr` can be seen, in either branch.
module _ (free_ram_end owner : ℕ) where
  unfoldable pub bump : ℕ → Memory → Option (ℕ × Memory)
  unfolding hand_out
  bump n m =
      if ltb free_ram_end (u64 (m.next_paddr + n * page_size))
      then none
      else some (
        m.next_paddr,
        hand_out m.next_paddr n owner
            (record m { next_paddr = u64 (m.next_paddr + n * page_size) }),
      )

  unfoldable pub alloc_pages : ℕ → Memory → Option (ℕ × Memory)
  unfolding bump alloc_free_list
  alloc_pages n m =
      let (pa, m') = alloc_free_list m in
      if n == 1
      then if not (pa == 0) then some (pa, hand_out pa 1 owner m') else bump 1 m'
      else bump n m

unfoldable pub free_page : ℕ → Memory → Memory
unfolding track_free store
free_page pa m =
    let m' = track_free pa 1 m in
    record m' {
      word = store m'.word pa m'.free_list;
      free_list = pa;
      g_free_pages = inc64 m'.g_free_pages;
    }

-- The rounds left, and `i`.
unfoldable pub free_pages_loop : ℕ → ℕ → ℕ → Memory → Memory
unfolding track_free free_page
free_pages_loop pa zero i m = m
free_pages_loop pa (suc n) i m =
    free_pages_loop pa n (i + 1) (free_page (u64 (pa + i * page_size)) (track_free pa 1 m))

unfoldable pub free_pages_range : ℕ → ℕ → Memory → Memory
unfolding free_pages_loop
free_pages_range pa npages m = free_pages_loop pa npages 0 m

-- The inner loop of `free_all_tracked_for_pid`.
unfoldable pub free_entry_pages : ℕ → ℕ → ℕ → Memory → Memory
unfolding free_page
free_entry_pages pa zero p m = m
free_entry_pages pa (suc n) p m =
    free_entry_pages pa n (p + 1) (free_page (u64 (pa + p * page_size)) m)

abbrev pub empty_entry : AllocTrack
empty_entry = record { used = false; pa = 0; npages = 0; owner = 0; tag = none }

abbrev pub entry : List AllocTrack → ℕ → AllocTrack
entry [] i = empty_entry
entry (x ∷ xs) zero = x
entry (x ∷ xs) (suc i) = entry xs i

abbrev pub set_entry : List AllocTrack → ℕ → AllocTrack → List AllocTrack
set_entry [] i e = []
set_entry (x ∷ xs) zero e = e ∷ xs
set_entry (x ∷ xs) (suc i) e = x ∷ set_entry xs i e

-- The body of the outer loop. The entry's fields but `used` do not change while its pages are freed.
unfoldable pub free_tracked_at : ℕ → ℕ → Memory → Memory
unfolding free_entry_pages
free_tracked_at pid i m =
    if not (entry m.alloc_table i).used || not ((entry m.alloc_table i).owner == pid)
    then m
    else (let m' = free_entry_pages (entry m.alloc_table i).pa (entry m.alloc_table i).npages 0 m in
        record m' {
          alloc_table = set_entry m'.alloc_table i empty_entry;
          alloc_table_count = dec64 m'.alloc_table_count;
        })

-- The rounds left, and `i`.
unfoldable pub free_tracked_loop : ℕ → ℕ → ℕ → Memory → Memory
unfolding free_tracked_at
free_tracked_loop pid zero i m = m
free_tracked_loop pid (suc n) i m = free_tracked_loop pid n (i + 1) (free_tracked_at pid i m)

-- `max` is the length of the table, MAX_TRACKED_ALLOCS. Interrupts are disabled until the end, where
-- they are enabled; what can come behind it is in the states `freeing` of its caller.
unfoldable pub free_all_tracked_for_pid : ℕ → ℕ → Memory → Memory
unfolding free_tracked_loop
free_all_tracked_for_pid max pid m = free_tracked_loop pid max 0 m

unfoldable pub page_allocator_free_pages : Memory → ℕ
page_allocator_free_pages m = m.g_free_pages
