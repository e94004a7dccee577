-- ===== src/Frames/Counted.antt =====
-- kernel/alloc-tracker.c: the count of the entries in use.
use Prim.Native.String.{String}
use riscv_os.Prelude.{
  ℕ, suc, ◌^◌, ◌≤◌, ◌<◌, ◌≡◌, refl, true, Option, List, [], ◌∷◌, if◌then◌else◌, arith, length,
}
use riscv_os.Frames.{
  AllocTrack, Memory, fill_entry, track_alloc, is_entry, unfill_entry, track_free,
}

-- How many entries are in use.
unfoldable pub used_entries : List AllocTrack → ℕ
used_entries [] = 0
used_entries (x ∷ xs) = if x.used then suc (used_entries xs) else used_entries xs

-- `alloc_table_count` is the number of active entries.
pub record IsCounted (m : Memory) : Type 0 where
  pub counted : m.alloc_table_count ≡ used_entries m.alloc_table
  pub short : length m.alloc_table < 2 ^ 64

pub used_entries-le : (xs : List AllocTrack) → used_entries xs ≤ length xs
unfolding used_entries
used_entries-le [] = omega arith
used_entries-le (x ∷ xs) = ground (arith, used_entries-le xs)

pub fill_entry-used :
    (e : AllocTrack) (xs : List AllocTrack)
    → e.used ≡ true
    → used_entries (fill_entry e xs).0
      ≡ (if (fill_entry e xs).1 then suc (used_entries xs) else used_entries xs)
unfolding fill_entry used_entries
fill_entry-used e [] h = refl
fill_entry-used e (x ∷ xs) h = ground (arith, fill_entry-used e xs)

pub length-fill_entry :
    (e : AllocTrack) (xs : List AllocTrack) → length (fill_entry e xs).0 ≡ length xs
unfolding fill_entry
length-fill_entry e [] = refl
length-fill_entry e (x ∷ xs) = ground (arith, length-fill_entry e xs)

pub fill_entry-lt :
    (e : AllocTrack) (xs : List AllocTrack)
    → (fill_entry e xs).1 ≡ true
    → used_entries xs < length xs
unfolding fill_entry used_entries
fill_entry-lt e [] h = cc
fill_entry-lt e (x ∷ xs) h = ground (arith, fill_entry-lt e xs, used_entries-le xs)

-- `track_alloc` keeps the count, also when the table is full and the allocation is not recorded.
pub track_alloc-IsCounted :
    (pa npages owner : ℕ) (tag : Option String) (m : Memory)
    → IsCounted m
    → IsCounted (track_alloc pa npages owner tag m)
unfolding track_alloc
track_alloc-IsCounted pa npages owner tag m c =
    let e : AllocTrack = record {
      used = true;
      pa = pa;
      npages = npages;
      owner = owner;
      tag = tag;
    } in
    record {
      counted = ground (
        arith,
        fill_entry-used e m.alloc_table,
        fill_entry-lt e m.alloc_table,
        length-fill_entry e m.alloc_table,
      );
      short = omega (arith, length-fill_entry e m.alloc_table);
    }

pub unfill_entry-used :
    (pa npages : ℕ) (xs : List AllocTrack)
    → used_entries xs ≡ (
        if (unfill_entry pa npages xs).1
        then suc (used_entries (unfill_entry pa npages xs).0)
        else used_entries (unfill_entry pa npages xs).0)
unfolding unfill_entry used_entries is_entry
unfill_entry-used pa npages [] = refl
unfill_entry-used pa npages (x ∷ xs) = ground (arith, unfill_entry-used pa npages xs)

pub length-unfill_entry :
    (pa npages : ℕ) (xs : List AllocTrack) → length (unfill_entry pa npages xs).0 ≡ length xs
unfolding unfill_entry
length-unfill_entry pa npages [] = refl
length-unfill_entry pa npages (x ∷ xs) = ground (arith, length-unfill_entry pa npages xs)

-- `track_free` keeps the count, also when the page is not in the table.
pub track_free-IsCounted :
    (pa npages : ℕ) (m : Memory) → IsCounted m → IsCounted (track_free pa npages m)
unfolding track_free
track_free-IsCounted pa npages m c = record {
  counted = ground (
    arith,
    unfill_entry-used pa npages m.alloc_table,
    used_entries-le m.alloc_table,
    length-unfill_entry pa npages m.alloc_table,
  );
  short = omega (arith, length-unfill_entry pa npages m.alloc_table);
}
