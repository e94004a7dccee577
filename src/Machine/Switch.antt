-- ===== src/Machine/Switch.antt =====
-- kernel/context.c: what `switch_context_sp` saves for a process, it gives back to it later.
use riscv_os.Prelude.{
  u64, ℕ, ◌+◌, ◌-◌, ◌*◌, ◌^◌, ◌≤◌, ◌<◌, ◌≡◌, refl, ap, sym, subst, ◌∙◌, ◌⊎◌, inl, inr, Bool, true,
  List, [], ◌∷◌, ◌==◌, if◌then◌else◌, arith, Bool-cases, ==→eq,
}
use riscv_os.Frames.{store}
use riscv_os.Frames.Chain.{store_self, store_ne}
use riscv_os.Machine.{
  Cpu, sd, addi, with_reg, run, sp, ra, a0, a1, saved_regs, saves, loads, switch_save, switch_load,
}
use riscv_os.Machine.Frame.{
  run-append, contains, saved, run-saves, Holds, saved-Holds, Holds-same, run-loads,
}

-- The registers that a call keeps, with the return address
abbrev pub kept_regs : List ℕ
kept_regs = ra ∷ saved_regs

abbrev saved_base : Cpu → ℕ
saved_base c = u64 (c.reg sp + (2 ^ 64 - 13 * 8))

abbrev lowered : Cpu → Cpu
lowered c = record c { reg = λ j. if j == sp then saved_base c else c.reg j }

abbrev save_word : Cpu → ℕ → ℕ
save_word c =
    store (saved (saved_base c) 0 kept_regs c.reg c.word) (u64 (c.reg a0 + 0)) (saved_base c)

switch_save-word : (c : Cpu) → (run switch_save c).word ≡ save_word c
unfolding run switch_save with_reg
switch_save-word c =
    ap (λ k. k.word)
      (run-append (saves sp 0 kept_regs) (sd sp 0 a0 ∷ []) (lowered c)
        ∙ ap (run (sd sp 0 a0 ∷ [])) (run-saves sp 0 kept_regs (lowered c)))

switch_load-regs :
    (d : Cpu) (base : ℕ) (f : ℕ → ℕ)
    → d.word (u64 (d.reg a1 + 0)) ≡ base
    → Holds d.word base 0 kept_regs f
    → (r : ℕ)
    → (run switch_load d).reg r
      ≡ (if r == sp then u64 (base + 104) else if contains kept_regs r then f r else d.reg r)
unfolding run switch_load with_reg
switch_load-regs d base f eb h r =
    let d1 = with_reg sp (d.word (u64 (d.reg a1 + 0))) d in
    let l =
      run-loads sp 0 kept_regs f d1 refl (subst (λ b. Holds d.word b 0 kept_regs f) (sym eb) h) in
    let loaded = run (loads sp 0 kept_regs) d1 in
    ap (λ k. k.reg r) (run-append (loads sp 0 kept_regs) (addi sp sp 104 ∷ []) d1)
    ∙ ap (λ x. if r == sp then x else loaded.reg r) (ap (λ b. u64 (b + 104)) (l.regs sp ∙ eb))
    ∙ ap (λ x. if r == sp then u64 (base + 104) else x) (l.regs r)
    ∙ drop_inner r (contains kept_regs r) (u64 (base + 104)) (f r) _ (d.reg r)
  where
    drop_inner :
        (j : ℕ) (b : Bool) (x y z v : ℕ)
        → (if j == sp then x else if b then y else if j == sp then z else v)
          ≡ (if j == sp then x else if b then y else v)
    drop_inner j b x y z v = elim (Bool-cases (j == sp)) [ inl e ↦ rw e | inr e ↦ rw e ]

pick_kept :
    (r v : ℕ) (f other : ℕ → ℕ)
    → contains (sp ∷ kept_regs) r ≡ true
    → v ≡ f sp
    → (if r == sp then v else if contains kept_regs r then f r else other r) ≡ f r
pick_kept r v f other h ev = elim (Bool-cases (r == sp)) [
  | inl e ↦ rw e (ev ∙ ap f (sym (==→eq r sp e)))
  | inr e ↦ let t : contains kept_regs r ≡ true = rw e at h in rw (e, t)
]

-- A process that leaves the CPU in `switch_context_sp` through its `sp` field, outside the 104 bytes
-- below its stack pointer: when a later call switches to that field, and neither the field nor those
-- bytes were written to, the stack pointer, the return address and s0 to s11 are again what they
-- were when the process left.
pub switch_load-switch_save :
    (c d : Cpu)
    → 104 ≤ c.reg sp
    → c.reg sp < 2 ^ 64
    → (c.reg a0 < c.reg sp - 104) ⊎ (c.reg sp ≤ c.reg a0)
    → c.reg a0 < 2 ^ 64
    → d.reg a1 ≡ c.reg a0
    → d.word (c.reg a0) ≡ (run switch_save c).word (c.reg a0)
    → ((a : ℕ) → c.reg sp - 104 ≤ a → a < c.reg sp → d.word a ≡ (run switch_save c).word a)
    → (r : ℕ) → contains (sp ∷ kept_regs) r ≡ true
    → (run switch_load d).reg r ≡ c.reg r
switch_load-switch_save c d room small apart low ea ew same r hr =
    let eb : saved_base c ≡ c.reg sp - 104 = omega arith in
    let slot : u64 (c.reg a0 + 0) ≡ c.reg a0 = omega arith in
    let slot_d : u64 (d.reg a1 + 0) ≡ c.reg a0 = omega arith in
    let top : u64 (saved_base c + 104) ≡ c.reg sp = omega arith in
    switch_load-regs d (saved_base c) c.reg
      (ap d.word slot_d
        ∙ ew
        ∙ ap (λ w. w (c.reg a0)) (switch_save-word c)
        ∙ ap (save_word c) (sym slot)
        ∙ store_self _ (u64 (c.reg a0 + 0)) (saved_base c))
      (Holds-same (saved_base c) 0 kept_regs c.reg (saved (saved_base c) 0 kept_regs c.reg c.word)
        d.word (omega arith)
        (λ a from below.
          same a (omega arith) (omega arith)
          ∙ ap (λ w. w a) (switch_save-word c)
          ∙ store_ne _ (u64 (c.reg a0 + 0)) (saved_base c) (ground arith))
        (saved-Holds (saved_base c) 0 kept_regs c.reg c.word (omega arith)))
      r
    ∙ pick_kept r (u64 (saved_base c + 104)) c.reg d.reg hr top
