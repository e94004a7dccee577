-- ===== src/Process/Table.antt =====
-- kernel/process.c: the entries of the process table and their pids.
use native.Mathlib.Numerals.{add-one}
use riscv_os.Prelude.{
  ℕ, zero, suc, ◌+◌, ◌<◌, ◌≡◌, refl, ap, ◌≢◌, pos, true, false, some, List, [], ◌∷◌, arith, length,
  Bool-cases, inl, inr,
}
use riscv_os.Process.{
  Proc, empty_proc, procs_max, proc_at, set_proc, is_unused, get_proc_by_pid, find_unused,
  alloc_free_proc,
}

-- Every process in use has the pid that its index gives it.
abbrev pub IsNumbered : ℕ → List Proc → Type 0
IsNumbered i [] = Unit {0}
IsNumbered i (p ∷ ps) = (is_unused p.state ≡ false → p.pid ≡ i + 1) × IsNumbered (i + 1) ps

pub proc_at-set_proc :
    (ps : List Proc) (i : ℕ) (q : Proc) → i < length ps → proc_at (set_proc ps i q) i ≡ q
proc_at-set_proc [] i q h = absurd (omega arith)
proc_at-set_proc (p ∷ ps) zero q h = refl
proc_at-set_proc (p ∷ ps) (suc i) q h = proc_at-set_proc ps i q (omega arith)

pub proc_at-set_proc_ne :
    (ps : List Proc) (i j : ℕ) (q : Proc) → i ≢ j → proc_at (set_proc ps i q) j ≡ proc_at ps j
proc_at-set_proc_ne [] i j q h = refl
proc_at-set_proc_ne (p ∷ ps) zero zero q h = absurd (h refl)
proc_at-set_proc_ne (p ∷ ps) zero (suc j) q h = refl
proc_at-set_proc_ne (p ∷ ps) (suc i) zero q h = refl
proc_at-set_proc_ne (p ∷ ps) (suc i) (suc j) q h = proc_at-set_proc_ne ps i j q (λ e. h (ap suc e))

pub length-set_proc : (ps : List Proc) (i : ℕ) (q : Proc) → length (set_proc ps i q) ≡ length ps
length-set_proc [] i q = refl
length-set_proc (p ∷ ps) zero q = refl
length-set_proc (p ∷ ps) (suc i) q = ap suc (length-set_proc ps i q)

pub IsNumbered-set_proc :
    (b : ℕ) (ps : List Proc) (i : ℕ) (q : Proc)
    → IsNumbered b ps
    → (is_unused q.state ≡ false → q.pid ≡ b + i + 1)
    → IsNumbered b (set_proc ps i q)
IsNumbered-set_proc b [] i q h e = tt
IsNumbered-set_proc b (p ∷ ps) zero q h e = (λ u. omega (arith, e u), h.1)
IsNumbered-set_proc b (p ∷ ps) (suc i) q h e =
    (h.0, IsNumbered-set_proc (b + 1) ps i q h.1 (λ u. omega (arith, e u)))

pub find_unused-lem :
    (ps : List Proc) (b i : ℕ)
    → find_unused ps b ≡ some i
    → (j : ℕ) × (i ≡ b + j) × (j < length ps) × (is_unused (proc_at ps j).state ≡ true)
unfolding find_unused
find_unused-lem [] b i h = cc
find_unused-lem (p ∷ ps) b i h = elim (Bool-cases (is_unused p.state)) [
  | inl e ↦ (0, ground arith, omega arith, e)
  | inr e ↦
      let (j, ei, hj, u) = find_unused-lem ps (b + 1) i (rw e at h) in
      (suc j, omega arith, omega arith, u)
]

pub alloc_free_proc-find_unused :
    (ps ps' : List Proc) (i : ℕ)
    → alloc_free_proc ps ≡ some (i, ps')
    → (find_unused ps 0 ≡ some i) × (ps' ≡ set_proc ps i (record empty_proc { pid = i + 1 }))
unfolding alloc_free_proc
alloc_free_proc-find_unused ps ps' i h = ground arith

pub get_proc_by_pid-suc : (i : ℕ) → i < procs_max → get_proc_by_pid (pos (i + 1)) ≡ some i
unfolding get_proc_by_pid
get_proc_by_pid-suc i h = rw add-one (ground arith)
