-- ===== src/Machine/Trap.antt =====
-- kernel/trap.c: `trap_vector` gives the interrupted program its registers back.
use riscv_os.Prelude.{
  u64, ℕ, ◌+◌, ◌-◌, ◌*◌, ◌^◌, ◌≤◌, ◌<◌, ◌≡◌, refl, ap, sym, subst, ◌∙◌, ◌≢◌, ◌⊎◌, inl, inr, true,
  List, [], ◌∷◌, ◌==◌, if◌then◌else◌, arith, length, Bool-cases, ==→eq,
}
use riscv_os.Frames.{store}
use riscv_os.Frames.Chain.{store_self, store_ne}
use riscv_os.Machine.{
  Csr, Cpu, Instr, csrr, sd, addi, csrw, ld, with_reg, run, sp, a0, a1, frame_regs, saves, loads,
  trap_entry, trap_exit,
}
use riscv_os.Machine.Frame.{
  run-append, contains, saved, run-saves, Holds, saved_outside, saved-Holds, Holds-same, run-loads,
}

-- The address of the frame: 256 bytes below the kernel's stack pointer in `sscratch`.
abbrev frame_base : Cpu → ℕ
frame_base c = u64 (c.sscratch + (2 ^ 64 - 8 * 32))

-- Memory behind the stores of the registers, and behind that of the stack pointer.
abbrev regs_word : Cpu → ℕ → ℕ
regs_word c = saved (frame_base c) 0 frame_regs c.reg c.word

abbrev sp_word : Cpu → ℕ → ℕ
sp_word c = store (regs_word c) (u64 (frame_base c + 8 * 30)) (c.reg sp)

-- Memory behind `trap_entry`.
abbrev entry_word : Cpu → ℕ → ℕ
entry_word c = store (sp_word c) (u64 (frame_base c + 8 * 31)) c.sepc

-- The first two instructions
abbrev swapped : Cpu → Cpu
swapped c = record c {
  reg = λ j. if j == sp then frame_base c else if j == sp then c.sscratch else c.reg j;
  sscratch = c.reg sp;
}

-- The instructions behind the stores
abbrev entry_end : List Instr
entry_end =
    csrr a0 Csr.sscratch
    ∷ sd a0 (8 * 30) sp
    ∷ csrr a1 Csr.sepc
    ∷ sd a1 (8 * 31) sp
    ∷ addi a0 sp (8 * 32)
    ∷ csrw Csr.sscratch a0
    ∷ addi a0 sp 0
    ∷ []

trap_entry-saved :
    (c : Cpu)
    → run trap_entry c
      ≡ run entry_end
          (record (swapped c) { word = saved (frame_base c) 0 frame_regs (swapped c).reg c.word })
unfolding run trap_entry
trap_entry-saved c =
    run-append (saves sp 0 frame_regs) entry_end (swapped c)
    ∙ ap (run entry_end) (run-saves sp 0 frame_regs (swapped c))

-- What the handler finds: its argument and its stack pointer are the frame, the frame has the
-- program's stack pointer and program counter at its end, and other memory is as it was.
pub record Entered (c e : Cpu) : Type 0 where
  pub argument : e.reg a0 ≡ c.sscratch - 256
  pub stack : e.reg sp ≡ c.sscratch - 256
  pub scratch : e.sscratch ≡ c.sscratch
  pub frame : Holds e.word (c.sscratch - 256) 0 frame_regs c.reg
  pub user_sp : e.word (c.sscratch - 256 + 240) ≡ c.reg sp
  pub user_pc : e.word (c.sscratch - 256 + 248) ≡ c.sepc
  pub others : (a : ℕ) → (a < c.sscratch - 256) ⊎ (c.sscratch ≤ a) → e.word a ≡ c.word a

module _ (c : Cpu) (room : 256 ≤ c.sscratch) (small : c.sscratch < 2 ^ 64) where
  base_eq : frame_base c ≡ c.sscratch - 256
  base_eq = omega (arith, room, small)

  entry_frame : Holds (entry_word c) (frame_base c) 0 frame_regs c.reg
  entry_frame =
      Holds-same (frame_base c) 0 frame_regs c.reg (saved (frame_base c) 0 frame_regs c.reg c.word)
        (entry_word c) (omega (arith, base_eq, small))
        (λ a low high.
          store_ne (sp_word c) (u64 (frame_base c + 8 * 31)) c.sepc
            (omega (arith, base_eq, small, room))
          ∙ store_ne (regs_word c) (u64 (frame_base c + 8 * 30)) (c.reg sp)
              (omega (arith, base_eq, small, room)))
        (saved-Holds (frame_base c) 0 frame_regs c.reg c.word (omega (arith, base_eq, small)))

  trap_entry-Entered : Entered c (run trap_entry c)
  unfolding run with_reg
  trap_entry-Entered =
      let e30 : c.sscratch - 256 + 240 ≡ u64 (frame_base c + 8 * 30) =
        omega (arith, base_eq, small, room) in
      let e31 : c.sscratch - 256 + 248 ≡ u64 (frame_base c + 8 * 31) =
        omega (arith, base_eq, small, room) in
      subst (Entered c) (sym (trap_entry-saved c)) (record {
        argument = omega (arith, base_eq, small);
        stack = base_eq;
        scratch = omega (arith, base_eq, small, room);
        frame = subst (λ b. Holds (entry_word c) b 0 frame_regs c.reg) base_eq entry_frame;
        user_sp =
            ap (entry_word c) e30
            ∙ store_ne (sp_word c) (u64 (frame_base c + 8 * 31)) c.sepc
                (omega (arith, base_eq, small, room))
            ∙ store_self (regs_word c) (u64 (frame_base c + 8 * 30)) (c.reg sp);
        user_pc =
            ap (entry_word c) e31 ∙ store_self (sp_word c) (u64 (frame_base c + 8 * 31)) c.sepc;
        others = λ a out.
            store_ne (sp_word c) (u64 (frame_base c + 8 * 31)) c.sepc (high a out)
            ∙ store_ne (regs_word c) (u64 (frame_base c + 8 * 30)) (c.reg sp) (low a out)
            ∙ saved_outside (frame_base c) 0 a frame_regs c.reg c.word
                (omega (arith, base_eq, small)) (beyond a out);
      })
    where
      high : (a : ℕ) → (a < c.sscratch - 256) ⊎ (c.sscratch ≤ a) → a ≢ u64 (frame_base c + 8 * 31)
      high a (inl h) e = omega (arith, base_eq, small, room)
      high a (inr h) e = omega (arith, base_eq, small, room)

      low : (a : ℕ) → (a < c.sscratch - 256) ⊎ (c.sscratch ≤ a) → a ≢ u64 (frame_base c + 8 * 30)
      low a (inl h) e = omega (arith, base_eq, small, room)
      low a (inr h) e = omega (arith, base_eq, small, room)

      beyond :
          (a : ℕ)
          → (a < c.sscratch - 256) ⊎ (c.sscratch ≤ a)
          → (a < frame_base c + 0) ⊎ (frame_base c + 0 + 8 * length frame_regs ≤ a)
      beyond a (inl h) = inl (omega (arith, base_eq))
      beyond a (inr h) = inr (omega (arith, base_eq, room))

-- `trap_exit` with the frame at the stack pointer.
trap_exit-frame :
    (base v : ℕ) (f : ℕ → ℕ) (d : Cpu)
    → d.reg sp ≡ base
    → Holds d.word base 0 frame_regs f
    → d.word (u64 (base + 240)) ≡ v
    → (r : ℕ)
    → (run trap_exit d).reg r
      ≡ (if r == sp then v else if contains frame_regs r then f r else d.reg r)
unfolding trap_exit run with_reg
trap_exit-frame base v f d es h ev r =
    let l =
      run-loads sp 0 frame_regs f d refl (subst (λ b. Holds d.word b 0 frame_regs f) (sym es) h) in
    let loaded = run (loads sp 0 frame_regs) d in
    ap (λ k. k.reg r) (run-append (loads sp 0 frame_regs) (ld sp 240 sp ∷ []) d)
    ∙ ap (λ x. if r == sp then x else loaded.reg r)
        (ap (λ w. w (u64 (loaded.reg sp + 240))) l.word
          ∙ ap (λ b. d.word (u64 (b + 240))) (l.regs sp ∙ es)
          ∙ ev)
    ∙ ap (λ x. if r == sp then v else x) (l.regs r)

pick_saved :
    (r : ℕ) (f other : ℕ → ℕ)
    → contains (sp ∷ frame_regs) r ≡ true
    → (if r == sp then f sp else if contains frame_regs r then f r else other r) ≡ f r
pick_saved r f other h = elim (Bool-cases (r == sp)) [
  | inl e ↦ rw e (ap f (sym (==→eq r sp e)))
  | inr e ↦ let t : contains frame_regs r ≡ true = rw e at h in rw (e, t)
]

-- A trap with room for the frame below the kernel's stack pointer in `sscratch`: the handler gets
-- the frame as its argument and on its stack (`Entered`), and whatever it does, if it returns with
-- that stack pointer and has not written to the frame, then `trap_vector` ends with all registers of
-- the frame and the stack pointer as they were when the trap came.
pub trap_vector-Entered :
    (c : Cpu)
    → 256 ≤ c.sscratch
    → c.sscratch < 2 ^ 64
    → Entered c (run trap_entry c)
      × ((d : Cpu)
          → d.reg sp ≡ c.sscratch - 256
          → ((a : ℕ) → c.sscratch - 256 ≤ a → a < c.sscratch → d.word a ≡ (run trap_entry c).word a)
          → (r : ℕ) → contains (sp ∷ frame_regs) r ≡ true
          → (run trap_exit d).reg r ≡ c.reg r)
trap_vector-Entered c room small =
    let e = trap_entry-Entered c room small in
    let same_address : u64 (c.sscratch - 256 + 240) ≡ c.sscratch - 256 + 240 = omega arith in
    (
      e,
      λ d es same r hr.
          trap_exit-frame (c.sscratch - 256) (c.reg sp) c.reg d es
            (Holds-same (c.sscratch - 256) 0 frame_regs c.reg (run trap_entry c).word d.word
              (omega arith) (λ a low high. same a (omega arith) (omega arith)) e.frame)
            (same (u64 (c.sscratch - 256 + 240)) (omega arith) (omega arith)
              ∙ ap (run trap_entry c).word same_address
              ∙ e.user_sp)
            r
          ∙ pick_saved r c.reg d.reg hr,
    )
