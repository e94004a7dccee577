-- ===== src/Frames/Tracker.antt =====
-- kernel/alloc-tracker.c: the table of allocations and its count.
use native.Mathlib.Numerals.{add-one}
use riscv_os.Prelude.{
  u64, ℕ, zero, suc, ◌+◌, ◌*◌, ◌^◌, ◌<◌, ◌≡◌, refl, Bool, true, false, not, ◌&&◌, ◌||◌, subst, List,
  [], ◌∷◌, ◌==◌, arith, Bool-cases, inl, inr, ==_refl,
}
use riscv_os.Frames.{
  AllocTrack, Memory, dec64, is_entry, unfill_entry, track_free, free_page, free_entry_pages, entry,
  set_entry, empty_entry, free_tracked_at, free_tracked_loop, free_all_tracked_for_pid,
}

-- No entry in use belongs to `pid`, among the first `n`.
abbrev pub NoneOf : ℕ → ℕ → List AllocTrack → Type 0
NoneOf pid zero xs = Unit {0}
NoneOf pid (suc n) [] = Unit {0}
NoneOf pid (suc n) (x ∷ xs) = ((x.used && x.owner == pid) ≡ false) × NoneOf pid n xs

NoneOf-unfill_entry :
    (pid n pa npages : ℕ) (xs : List AllocTrack)
    → NoneOf pid n xs
    → NoneOf pid n (unfill_entry pa npages xs).0
unfolding unfill_entry
NoneOf-unfill_entry pid zero pa npages xs h = tt
NoneOf-unfill_entry pid (suc n) pa npages [] h = tt
NoneOf-unfill_entry pid (suc n) pa npages (x ∷ xs) h = elim (Bool-cases (is_entry pa npages x)) [
  | inl e ↦ rw e (refl, h.1)
  | inr e ↦ rw e (h.0, NoneOf-unfill_entry pid n pa npages xs h.1)
]

NoneOf-free_page :
    (pid n pa : ℕ) (m : Memory)
    → NoneOf pid n m.alloc_table
    → NoneOf pid n (free_page pa m).alloc_table
unfolding free_page track_free
NoneOf-free_page pid n pa m h = NoneOf-unfill_entry pid n pa 1 m.alloc_table h

NoneOf-free_entry_pages :
    (pid n pa k p : ℕ) (m : Memory)
    → NoneOf pid n m.alloc_table
    → NoneOf pid n (free_entry_pages pa k p m).alloc_table
unfolding free_entry_pages
NoneOf-free_entry_pages pid n pa zero p m h = h
NoneOf-free_entry_pages pid n pa (suc k) p m h =
    NoneOf-free_entry_pages pid n pa k (p + 1) _ (NoneOf-free_page pid n _ m h)

NoneOf-set_entry :
    (pid i : ℕ) (xs : List AllocTrack)
    → NoneOf pid i xs
    → NoneOf pid (suc i) (set_entry xs i empty_entry)
NoneOf-set_entry pid zero [] h = tt
NoneOf-set_entry pid zero (x ∷ xs) h = (refl, tt)
NoneOf-set_entry pid (suc i) [] h = tt
NoneOf-set_entry pid (suc i) (x ∷ xs) h = (h.0, NoneOf-set_entry pid i xs h.1)

NoneOf-suc :
    (pid i : ℕ) (xs : List AllocTrack)
    → ((entry xs i).used && (entry xs i).owner == pid) ≡ false
    → NoneOf pid i xs
    → NoneOf pid (suc i) xs
NoneOf-suc pid zero [] e h = tt
NoneOf-suc pid zero (x ∷ xs) e h = (e, tt)
NoneOf-suc pid (suc i) [] e h = tt
NoneOf-suc pid (suc i) (x ∷ xs) e h = (h.0, NoneOf-suc pid i xs e h.1)

not-and : (a b : Bool) → (not a || not b) ≡ true → (a && b) ≡ false
not-and true b h = ground arith
not-and false b h = refl

NoneOf-free_tracked_at :
    (pid i : ℕ) (m : Memory)
    → NoneOf pid i m.alloc_table
    → NoneOf pid (suc i) (free_tracked_at pid i m).alloc_table
unfolding free_tracked_at
NoneOf-free_tracked_at pid i m h =
    elim (Bool-cases
      (not (entry m.alloc_table i).used || not ((entry m.alloc_table i).owner == pid))) [
        | inl e ↦ rw e (NoneOf-suc pid i m.alloc_table (not-and _ _ e) h)
        | inr e ↦ rw e (
            NoneOf-set_entry pid i _ (
              NoneOf-free_entry_pages pid i (entry m.alloc_table i).pa
                (entry m.alloc_table i).npages 0 m h))
      ]

NoneOf-free_tracked_loop :
    (pid n i k : ℕ) (m : Memory)
    → i + n ≡ k
    → NoneOf pid i m.alloc_table
    → NoneOf pid k (free_tracked_loop pid n i m).alloc_table
unfolding free_tracked_loop
NoneOf-free_tracked_loop pid zero i k m e h =
    let ei : i ≡ k = omega arith in subst (λ j. NoneOf pid j m.alloc_table) ei h
NoneOf-free_tracked_loop pid (suc n) i k m e h =
    NoneOf-free_tracked_loop pid n (i + 1) k (free_tracked_at pid i m) (omega arith)
      (rw add-one (NoneOf-free_tracked_at pid i m h))

-- After `free_all_tracked_for_pid` no entry of the table is in use for `pid`, whatever pages the
-- entries held and also where freeing one entry's page clears another entry.
pub free_all_tracked_for_pid-NoneOf :
    (max pid : ℕ) (m : Memory) → NoneOf pid max (free_all_tracked_for_pid max pid m).alloc_table
unfolding free_all_tracked_for_pid
free_all_tracked_for_pid-NoneOf max pid m =
    NoneOf-free_tracked_loop pid max 0 max m (omega arith) tt

unfill_entry-found :
    (pa : ℕ) (xs : List AllocTrack) (i : ℕ)
    → (entry xs i).used ≡ true
    → (entry xs i).pa ≡ pa
    → (entry xs i).npages ≡ 1
    → (unfill_entry pa 1 xs).1 ≡ true
unfolding unfill_entry is_entry
unfill_entry-found pa [] i u e n = cc
unfill_entry-found pa (x ∷ xs) zero u e n = ground arith
unfill_entry-found pa (x ∷ xs) (suc i) u e n = ground (arith, unfill_entry-found pa xs i u e n)

-- A used entry of `pid` that holds one page, at an address below 2^64, takes two off the count: its
-- page is freed through `free_page`, which counts the entry off, and then the entry is counted off
-- again.
free_tracked_at-count :
    (pid i : ℕ) (m : Memory)
    → (entry m.alloc_table i).used ≡ true
    → (entry m.alloc_table i).owner ≡ pid
    → (entry m.alloc_table i).npages ≡ 1
    → (entry m.alloc_table i).pa < 2 ^ 64
    → (free_tracked_at pid i m).alloc_table_count ≡ dec64 (dec64 m.alloc_table_count)
unfolding free_tracked_at free_entry_pages free_page track_free
free_tracked_at-count pid i m u o n small =
    let ep : u64 ((entry m.alloc_table i).pa + 0 * 4096) ≡ (entry m.alloc_table i).pa =
      omega arith in
    rw (
      u,
      o,
      n,
      ==_refl pid,
      ep,
      unfill_entry-found (entry m.alloc_table i).pa m.alloc_table i u refl n,
    )
