-- ===== src/Scheduler/Pick.antt =====
-- kernel/scheduler.c: which process the loop of `yield` chooses.
use native.Mathlib.Nat.{add-zero}
use riscv_os.Prelude.{
  ℕ, zero, suc, ◌+◌, ◌<◌, ◌≡◌, refl, ◌≢◌, true, false, Option, none, some, List, [], ◌∷◌, ◌==◌,
  arith, length, Bool-cases, inl, inr, subst, ◌⊎◌, ◌≤◌, sym, Bool, ◌&&◌, ◌||◌, not, ==→eq,
  ==_false→ne, ne→==_false,
}
use riscv_os.Process.{Proc, ProcState, runnable, proc_at, is_runnable}
use riscv_os.Scheduler.{is_candidate, pick, pick_next}

-- The first entry from index `i` that passes the tests of the loop, or none.
abbrev FirstFrom : ℕ → ℕ → ℕ → List Proc → Option ℕ → Type 0
FirstFrom count cur i ps none =
    (j : ℕ) → j < length ps → is_candidate count cur (i + j) (proc_at ps j) ≡ false
FirstFrom count cur i ps (some n) =
    (j : ℕ) × (n ≡ i + j)
    × (j < length ps)
    × (is_candidate count cur n (proc_at ps j) ≡ true)
    × ((j' : ℕ) → j' < j → is_candidate count cur (i + j') (proc_at ps j') ≡ false)

FirstFrom-cons :
    (count cur i : ℕ) (p : Proc) (ps : List Proc)
    → is_candidate count cur i p ≡ false
    → (o : Option ℕ) → FirstFrom count cur (i + 1) ps o
    → FirstFrom count cur i (p ∷ ps) o
FirstFrom-cons count cur i p ps no_candidate none h = all_false
  where
    all_false :
        (j : ℕ) → j < suc (length ps) → is_candidate count cur (i + j) (proc_at (p ∷ ps) j) ≡ false
    all_false zero hj = rw add-zero no_candidate
    all_false (suc j) hj =
        subst (λ k. is_candidate count cur k (proc_at ps j) ≡ false) (move i j) (h j (le_of j hj))
      where
        move : (a b : ℕ) → a + 1 + b ≡ a + suc b
        move a b = omega arith

        le_of : (b : ℕ) → suc b < suc (length ps) → b < length ps
        le_of b hb = omega arith
FirstFrom-cons count cur i p ps no_candidate (some n) (j, en, hj, yes_candidate, first) =
    (suc j, omega arith, omega arith, yes_candidate, all_false)
  where
    all_false :
        (j' : ℕ) → j' < suc j → is_candidate count cur (i + j') (proc_at (p ∷ ps) j') ≡ false
    all_false zero h' = rw add-zero no_candidate
    all_false (suc j') h' =
        subst (λ k. is_candidate count cur k (proc_at ps j') ≡ false) (move i j')
          (first j' (le_of j' h'))
      where
        move : (a b : ℕ) → a + 1 + b ≡ a + suc b
        move a b = omega arith

        le_of : (b : ℕ) → suc b < suc j → b < j
        le_of b hb = omega arith

pick-FirstFrom : (count cur i : ℕ) (ps : List Proc) → FirstFrom count cur i ps (pick count cur i ps)
unfolding pick
pick-FirstFrom count cur i [] = λ j hj. refl
pick-FirstFrom count cur i (p ∷ ps) = elim (Bool-cases (is_candidate count cur i p)) [
  | inl e ↦ rw e (0, omega arith, omega arith, e, λ j' h'. absurd (not_lt_zero j' h'))
  | inr e ↦ rw e (FirstFrom-cons count cur i p ps e _ (pick-FirstFrom count cur (i + 1) ps))
]
  where
    not_lt_zero : (n : ℕ) → n < zero → ⊥
    not_lt_zero n h = omega arith

-- A process that may get the CPU: it is in use and ready, and it is not the current one, unless there
-- are two processes.
abbrev pub MayRun : ℕ → ℕ → ℕ → Proc → Type 0
MayRun count cur i p = (p.pid ≢ 0) × (p.state ≡ runnable) × ((count ≡ 2) ⊎ (i ≢ cur))

runnable_state : (s : ProcState) → is_runnable s ≡ true → s ≡ runnable
runnable_state ProcState.unused e = absurd (cc)
runnable_state ProcState.runnable e = refl
runnable_state ProcState.running e = absurd (cc)
runnable_state ProcState.waiting e = absurd (cc)
runnable_state ProcState.zombie e = absurd (cc)

-- The tests as an alternative of Booleans
tests_pass :
    (unused ready two same : Bool)
    → (not unused && ((ready && two) || (ready && not same))) ≡ true
    → (unused ≡ false) × (ready ≡ true) × ((two ≡ true) ⊎ (same ≡ false))
tests_pass true ready two same h = absurd (cc)
tests_pass false false two same h = absurd (cc)
tests_pass false true true same h = (refl, refl, inl refl)
tests_pass false true false false h = (refl, refl, inr refl)
tests_pass false true false true h = absurd (cc)

tests_fail :
    (two same : Bool)
    → (not false && ((true && two) || (true && not same))) ≡ false
    → (two ≡ false) × (same ≡ true)
tests_fail true same h = absurd (cc)
tests_fail false true h = (refl, refl)
tests_fail false false h = absurd (cc)

candidate-MayRun :
    (count cur i : ℕ) (p : Proc) → is_candidate count cur i p ≡ true → MayRun count cur i p
unfolding is_candidate
candidate-MayRun count cur i p h =
    let (used, ready, other) =
      tests_pass (p.pid == 0) (is_runnable p.state) (count == 2) (i == cur) h in
    (
      ==_false→ne p.pid 0 used,
      runnable_state p.state ready,
      elim other [ inl e ↦ inl (==→eq count 2 e) | inr e ↦ inr (==_false→ne i cur e) ],
    )

MayRun-candidate :
    (count cur i : ℕ) (p : Proc) → is_candidate count cur i p ≡ false → MayRun count cur i p → ⊥
unfolding is_candidate
MayRun-candidate count cur i p h (used, ready, other) =
    let (two, same) =
      tests_fail (count == 2) (i == cur) (rw (ne→==_false p.pid 0 used, ready) at h) in
    elim other [ inl e ↦ ==_false→ne count 2 two e | inr e ↦ e (==→eq i cur same) ]

-- What `yield` promises of its choice in the whole table, for the count of processes and the current
-- one: the first entry behind idle that may run, or none if there is none.
abbrev pub Chosen : ℕ → ℕ → List Proc → Option ℕ → Type 0
Chosen count cur ps none = (j : ℕ) → 1 ≤ j → j < length ps → MayRun count cur j (proc_at ps j) → ⊥
Chosen count cur ps (some n) =
    (1 ≤ n)
    × (n < length ps)
    × MayRun count cur n (proc_at ps n)
    × ((j : ℕ) → 1 ≤ j → j < n → MayRun count cur j (proc_at ps j) → ⊥)

suc_index : (j : ℕ) → 1 + j ≡ suc j
suc_index j = omega arith

FirstFrom-Chosen :
    (count cur : ℕ) (p : Proc) (ps : List Proc) (o : Option ℕ)
    → FirstFrom count cur 1 ps o
    → Chosen count cur (p ∷ ps) o
FirstFrom-Chosen count cur p ps none h = none_may
  where
    none_may : (j : ℕ) → 1 ≤ j → j < suc (length ps) → MayRun count cur j (proc_at (p ∷ ps) j) → ⊥
    none_may zero low high = absurd (omega arith)
    none_may (suc j) low high =
        MayRun-candidate count cur (suc j) (proc_at ps j) (rw suc_index at (h j (omega arith)))
FirstFrom-Chosen count cur p ps (some n) (j, en, hj, passes, before) =
    let e : n ≡ suc j = omega arith in
    (
      omega arith,
      omega arith,
      subst (λ x. MayRun count cur n (proc_at (p ∷ ps) x)) (sym e)
          (candidate-MayRun count cur n (proc_at ps j) passes),
      none_may,
    )
  where
    none_may : (i : ℕ) → 1 ≤ i → i < n → MayRun count cur i (proc_at (p ∷ ps) i) → ⊥
    none_may zero low high = absurd (omega arith)
    none_may (suc i) low high =
        MayRun-candidate count cur (suc i) (proc_at ps i)
          (rw suc_index at (before i (omega (arith, en))))

-- The loop of `yield` chooses, from the entries behind idle, the first one that is in use and ready
-- and is not the current process; the current process too may be chosen when there are two
-- processes. It chooses none exactly when there is no such entry.
pub pick_next-Chosen :
    (count cur : ℕ) (p : Proc) (ps : List Proc)
    → Chosen count cur (p ∷ ps) (pick_next count cur (p ∷ ps))
unfolding pick_next
pick_next-Chosen count cur p ps = FirstFrom-Chosen count cur p ps _ (pick-FirstFrom count cur 1 ps)

-- While the two processes behind idle are in use and ready, and the count of processes is not two,
-- `yield` chooses one of these two, whatever waits behind them.
pub pick_next-starves :
    (count cur : ℕ) (idle p1 p2 : Proc) (ps : List Proc)
    → count ≢ 2
    → p1.pid ≢ 0
    → p2.pid ≢ 0
    → is_runnable p1.state ≡ true
    → is_runnable p2.state ≡ true
    → (pick_next count cur (idle ∷ p1 ∷ p2 ∷ ps) ≡ some 1)
      ⊎ (pick_next count cur (idle ∷ p1 ∷ p2 ∷ ps) ≡ some 2)
unfolding pick_next pick is_candidate
pick_next-starves count cur idle p1 p2 ps many n1 n2 r1 r2 =
    rw (r1, r2, ne→==_false count 2 many, ne→==_false p1.pid 0 n1, ne→==_false p2.pid 0 n2)
      (elim (Bool-cases (1 == cur)) [
        | inl e ↦ let ne2 : (2 == cur) ≡ false = ground arith in inr (rw (e, ne2))
        | inr e ↦ inl (rw e)
      ])
