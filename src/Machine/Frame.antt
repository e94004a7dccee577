-- ===== src/Machine/Frame.antt =====
-- The assembly: runs of `sd` and of `ld`, and what a run of stores leaves for a run of loads.
use riscv_os.Prelude.{
  u64, ℕ, ◌+◌, ◌*◌, ◌^◌, ◌≤◌, ◌<◌, ◌≡◌, refl, ap, sym, subst, ◌∙◌, ◌≢◌, ◌⊎◌, inl, inr, Bool, false,
  ◌||◌, List, [], ◌∷◌, ◌++◌, ◌==◌, if◌then◌else◌, arith, length, Bool-cases, ==→eq,
}
use riscv_os.Frames.{store}
use riscv_os.Frames.Chain.{store_self, store_ne}
use riscv_os.Machine.{Cpu, Instr, sd, with_reg, step, run, saves, loads}

pub run-append : (xs ys : List Instr) (c : Cpu) → run (xs ++ ys) c ≡ run ys (run xs c)
unfolding run
run-append [] ys c = refl
run-append (x ∷ xs) ys c = run-append xs ys (step x c)

abbrev pub contains : List ℕ → ℕ → Bool
contains [] r = false
contains (x ∷ xs) r = r == x || contains xs r

-- Memory after the registers are stored from an address on.
abbrev pub saved : ℕ → ℕ → List ℕ → (ℕ → ℕ) → (ℕ → ℕ) → ℕ → ℕ
saved base imm [] f w = w
saved base imm (r ∷ rs) f w = saved base (imm + 8) rs f (store w (u64 (base + imm)) (f r))

pub run-saves :
    (base imm : ℕ) (rs : List ℕ) (c : Cpu)
    → run (saves base imm rs) c ≡ record c { word = saved (c.reg base) imm rs c.reg c.word }
unfolding run saves
run-saves base imm [] c = refl
run-saves base imm (r ∷ rs) c = run-saves base (imm + 8) rs (step (sd r imm base) c)

-- The words from an address on hold what the registers hold.
abbrev pub Holds : (ℕ → ℕ) → ℕ → ℕ → List ℕ → (ℕ → ℕ) → Type 0
Holds w base imm [] f = Unit {0}
Holds w base imm (r ∷ rs) f = (w (u64 (base + imm)) ≡ f r) × Holds w base (imm + 8) rs f

pub saved_outside :
    (base imm a : ℕ) (rs : List ℕ) (f w : ℕ → ℕ)
    → base + imm + 8 * length rs ≤ 2 ^ 64
    → (a < base + imm) ⊎ (base + imm + 8 * length rs ≤ a)
    → saved base imm rs f w a ≡ w a
saved_outside base imm a [] f w fits out = refl
saved_outside base imm a (r ∷ rs) f w fits out =
    saved_outside base (imm + 8) a rs f (store w (u64 (base + imm)) (f r)) (omega arith)
      (further out)
    ∙ store_ne w (u64 (base + imm)) (f r) (apart out)
  where
    further :
        (a < base + imm) ⊎ (base + imm + 8 * length (r ∷ rs) ≤ a)
        → (a < base + (imm + 8)) ⊎ (base + (imm + 8) + 8 * length rs ≤ a)
    further (inl h) = inl (omega arith)
    further (inr h) = inr (omega arith)

    apart : (a < base + imm) ⊎ (base + imm + 8 * length (r ∷ rs) ≤ a) → a ≢ u64 (base + imm)
    apart (inl h) e = omega arith
    apart (inr h) e = omega arith

pub saved-Holds :
    (base imm : ℕ) (rs : List ℕ) (f w : ℕ → ℕ)
    → base + imm + 8 * length rs ≤ 2 ^ 64
    → Holds (saved base imm rs f w) base imm rs f
saved-Holds base imm [] f w fits = tt
saved-Holds base imm (r ∷ rs) f w fits = (
  saved_outside base (imm + 8) (u64 (base + imm)) rs f (store w (u64 (base + imm)) (f r))
        (omega arith) (inl (omega arith))
      ∙ store_self w (u64 (base + imm)) (f r),
  saved-Holds base (imm + 8) rs f (store w (u64 (base + imm)) (f r)) (omega arith),
)

-- Memory that agrees on those words holds the same.
pub Holds-same :
    (base imm : ℕ) (rs : List ℕ) (f w w' : ℕ → ℕ)
    → base + imm + 8 * length rs ≤ 2 ^ 64
    → ((a : ℕ) → base + imm ≤ a → a < base + imm + 8 * length rs → w' a ≡ w a)
    → Holds w base imm rs f
    → Holds w' base imm rs f
Holds-same base imm [] f w w' fits same h = tt
Holds-same base imm (r ∷ rs) f w w' fits same h = (
  same (u64 (base + imm)) (omega arith) (omega arith) ∙ h.0,
  Holds-same base (imm + 8) rs f w w' (omega arith)
      (λ a low high. same a (omega arith) (omega arith)) h.1,
)

-- What a run of loads does: the registers of the list have their values, and nothing else changes.
pub record Loaded (rs : List ℕ) (f : ℕ → ℕ) (c d : Cpu) : Type 0 where
  pub regs : (r : ℕ) → d.reg r ≡ (if contains rs r then f r else c.reg r)
  pub word : d.word ≡ c.word
  pub sscratch : d.sscratch ≡ c.sscratch
  pub sepc : d.sepc ≡ c.sepc
  pub sstatus : d.sstatus ≡ c.sstatus

contains-head : (x y : Bool) → (x || y) ≡ false → (x ≡ false) × (y ≡ false)
contains-head x y h = ground arith

Loaded-cons :
    (r0 v : ℕ) (rs : List ℕ) (f : ℕ → ℕ) (c d : Cpu)
    → v ≡ f r0
    → Loaded rs f (with_reg r0 v c) d
    → Loaded (r0 ∷ rs) f c d
unfolding with_reg
Loaded-cons r0 v rs f c d ev l = record {
  regs = λ r. l.regs r ∙ pick r;
  word = l.word;
  sscratch = l.sscratch;
  sepc = l.sepc;
  sstatus = l.sstatus;
}
  where
    pick :
        (r : ℕ)
        → (if contains rs r then f r else if r == r0 then v else c.reg r)
          ≡ (if contains (r0 ∷ rs) r then f r else c.reg r)
    pick r = elim (Bool-cases (r == r0)) [
      | inl e ↦
          let here : v ≡ f r = ev ∙ ap f (sym (==→eq r r0 e)) in
          rw e (elim (Bool-cases (contains rs r)) [ inl t ↦ rw t | inr t ↦ rw t here ])
      | inr e ↦ rw e
    ]

pub run-loads :
    (base imm : ℕ) (rs : List ℕ) (f : ℕ → ℕ) (c : Cpu)
    → contains rs base ≡ false
    → Holds c.word (c.reg base) imm rs f
    → Loaded rs f c (run (loads base imm rs) c)
unfolding run loads with_reg
run-loads base imm [] f c other h = record {
  regs = λ r. refl;
  word = refl;
  sscratch = refl;
  sepc = refl;
  sstatus = refl;
}
run-loads base imm (r0 ∷ rs) f c other h =
    let (ne, others) = contains-head (base == r0) (contains rs base) other in
    let v = c.word (u64 (c.reg base + imm)) in
    let kept : (with_reg r0 v c).reg base ≡ c.reg base = rw ne in
    Loaded-cons r0 v rs f c (run (loads base (imm + 8) rs) (with_reg r0 v c)) h.0 (
      run-loads base (imm + 8) rs f (with_reg r0 v c) others
        (subst (λ b. Holds c.word b (imm + 8) rs f) (sym kept) h.1))
