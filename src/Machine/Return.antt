-- ===== src/Machine/Return.antt =====
-- kernel/user.c: which registers `user_return` gives back from the frame, and which it does not.
use riscv_os.Prelude.{
  u64, ℕ, ◌+◌, ◌*◌, ◌≡◌, refl, ap, sym, subst, ◌∙◌, List, [], ◌∷◌, ◌++◌, if◌then◌else◌, arith,
  length,
}
use riscv_os.Machine.{
  Cpu, with_reg, run, sp, t0, a0, a1, saved_regs, frame_regs, loads, return_state, return_arguments,
  user_return,
}
use riscv_os.Machine.Frame.{run-append, contains, Holds, Loaded, run-loads}

Holds-append :
    (w : ℕ → ℕ) (base imm : ℕ) (xs ys : List ℕ) (f : ℕ → ℕ)
    → Holds w base imm (xs ++ ys) f
    → Holds w base imm xs f × Holds w base (imm + 8 * length xs) ys f
Holds-append w base imm [] ys f h =
    let e : imm ≡ imm + 8 * 0 = omega arith in (tt, subst (λ i. Holds w base i ys f) e h)
Holds-append w base imm (x ∷ xs) ys f h =
    let (front, back) = Holds-append w base (imm + 8) xs ys f h.1 in
    let e : imm + 8 + 8 * length xs ≡ imm + 8 * length (x ∷ xs) = omega arith in
    ((h.0, front), subst (λ i. Holds w base i ys f) e back)

-- Two functions agree on a list.
abbrev pub Same : (ℕ → ℕ) → (ℕ → ℕ) → List ℕ → Type 0
Same g f [] = Unit {0}
Same g f (r ∷ rs) = (g r ≡ f r) × Same g f rs

abbrev front_regs : List ℕ
front_regs = 1 ∷ 3 ∷ 4 ∷ 5 ∷ 6 ∷ 7 ∷ 28 ∷ 29 ∷ 30 ∷ 31 ∷ []

abbrev back_regs : List ℕ
back_regs = 11 ∷ 12 ∷ 13 ∷ 14 ∷ 15 ∷ 16 ∷ 17 ∷ saved_regs

-- ra, gp, tp, t4 to t6, a2 to a7, s0 to s11
abbrev pub returned_regs : List ℕ
returned_regs = 1 ∷ 3 ∷ 4 ∷ 29 ∷ 30 ∷ 31 ∷ 12 ∷ 13 ∷ 14 ∷ 15 ∷ 16 ∷ 17 ∷ saved_regs

-- The state behind the first three instructions
abbrev at_frame : ℕ → ℕ → Cpu → Cpu
at_frame current_proc tf_offset c =
    let c1 = with_reg t0 (c.word (u64 (current_proc + 0))) (with_reg t0 current_proc c) in
    with_reg a0 (c.word (u64 (c.word (u64 (current_proc + 0)) + tf_offset))) c1

module _ (current_proc tf_offset argc_offset argv_offset : ℕ) (c : Cpu) (f : ℕ → ℕ) (frame : ℕ)
    (is_frame : c.word (u64 (c.word (u64 (current_proc + 0)) + tf_offset)) ≡ frame)
    (holds : Holds c.word frame 0 frame_regs f) where
  front_loaded : Cpu
  unfolding with_reg
  front_loaded = run (loads a0 0 front_regs) (at_frame current_proc tf_offset c)

  frame_loaded : Cpu
  unfolding front_loaded
  frame_loaded = run (loads a0 88 back_regs) front_loaded

  front_lem : Loaded front_regs f (at_frame current_proc tf_offset c) front_loaded
  unfolding front_loaded with_reg
  front_lem = run-loads a0 0 front_regs f (at_frame current_proc tf_offset c) refl (
      subst (λ b. Holds c.word b 0 front_regs f) (sym is_frame)
        (Holds-append c.word frame 0 front_regs (a0 ∷ back_regs) f holds).0)

  front_a0 : front_loaded.reg a0 ≡ frame
  unfolding with_reg
  front_a0 = front_lem.regs a0 ∙ is_frame

  back_lem : Loaded back_regs f front_loaded frame_loaded
  unfolding frame_loaded with_reg
  back_lem = run-loads a0 88 back_regs f front_loaded refl (
      subst (λ b. Holds front_loaded.word b 88 back_regs f) (sym front_a0)
        (subst (λ w. Holds w frame 88 back_regs f) (sym front_lem.word)
          (Holds-append c.word frame 0 front_regs (a0 ∷ back_regs) f holds).1.1))

  frame_loaded-word : frame_loaded.word ≡ c.word
  unfolding with_reg
  frame_loaded-word = back_lem.word ∙ front_lem.word

  user_return-run :
      user_return current_proc tf_offset argc_offset argv_offset c
      ≡ run
          (return_arguments current_proc tf_offset argc_offset argv_offset)
          (run (return_state current_proc tf_offset argc_offset argv_offset) frame_loaded)
  unfolding user_return frame_loaded front_loaded with_reg
  user_return-run =
      ap
        (λ d.
          run (return_arguments current_proc tf_offset argc_offset argv_offset)
            (run (return_state current_proc tf_offset argc_offset argv_offset) d))
        (run-append (loads a0 0 front_regs) (loads a0 88 back_regs)
          (at_frame current_proc tf_offset c))

  at_regs :
      (r : ℕ)
      → frame_loaded.reg r ≡ (
          if contains back_regs r
          then f r
          else if contains front_regs r
          then f r
          else (at_frame current_proc tf_offset c).reg r)
  at_regs r = back_lem.regs r ∙ ap (λ x. if contains back_regs r then f r else x) (front_lem.regs r)

  at_a0 : frame_loaded.reg a0 ≡ frame
  unfolding with_reg
  at_a0 = at_regs a0 ∙ is_frame

  at_word :
      (x : ℕ → ℕ) (k : ℕ)
      → x ≡ frame_loaded.reg
      → frame_loaded.word (u64 (x a0 + k)) ≡ c.word (u64 (frame + k))
  at_word x k e =
      ap (λ g. frame_loaded.word (u64 (g a0 + k))) e
      ∙ ap (λ b. frame_loaded.word (u64 (b + k))) at_a0
      ∙ ap (λ w. w (u64 (frame + k))) frame_loaded-word

  at_current :
      (k : ℕ)
      → frame_loaded.word (u64 (u64 (frame_loaded.word (u64 (current_proc + 0)) + k) + 0))
        ≡ c.word (u64 (c.word (u64 (current_proc + 0)) + k))
  at_current k =
      ap (λ w. w (u64 (u64 (w (u64 (current_proc + 0)) + k) + 0))) frame_loaded-word
      ∙ ap c.word (plain (c.word (u64 (current_proc + 0)) + k))
    where
      plain : (x : ℕ) → u64 (u64 x + 0) ≡ u64 x
      plain x = omega arith

  -- `user_return`, for a current process with its frame in memory: ra, gp, tp, t4 to t6, a2 to a7, s0
  -- to s11 and the stack pointer are those of the frame, and execution goes on at the frame's program
  -- counter. But a0 and a1 are the process's `argc` and `argv_ptr`, and t0 is the program counter,
  -- whatever the frame has for them.
  pub user_return-Same :
      Same (user_return current_proc tf_offset argc_offset argv_offset c).reg f returned_regs
      × ((user_return current_proc tf_offset argc_offset argv_offset c).reg sp
          ≡ c.word (u64 (frame + 240)))
      × ((user_return current_proc tf_offset argc_offset argv_offset c).sepc
          ≡ c.word (u64 (frame + 248)))
      × ((user_return current_proc tf_offset argc_offset argv_offset c).reg a0
          ≡ c.word (u64 (c.word (u64 (current_proc + 0)) + argc_offset)))
      × ((user_return current_proc tf_offset argc_offset argv_offset c).reg a1
          ≡ c.word (u64 (c.word (u64 (current_proc + 0)) + argv_offset)))
      × ((user_return current_proc tf_offset argc_offset argv_offset c).reg t0
          ≡ c.word (u64 (frame + 248)))
  unfolding run with_reg return_state return_arguments
  user_return-Same = rw user_return-run (
    (
      at_regs 1,
      (
        at_regs 3,
        (
          at_regs 4,
          (
            at_regs 29,
            (
              at_regs 30,
              (
                at_regs 31,
                (
                  at_regs 12,
                  (
                    at_regs 13,
                    (
                      at_regs 14,
                      (
                        at_regs 15,
                        (
                          at_regs 16,
                          (
                            at_regs 17,
                            (
                              at_regs 8,
                              (
                                at_regs 9,
                                (
                                  at_regs 18,
                                  (
                                    at_regs 19,
                                    (
                                      at_regs 20,
                                      (
                                        at_regs 21,
                                        (
                                          at_regs 22,
                                          (
                                            at_regs 23,
                                            (
                                              at_regs 24,
                                              (at_regs 25, (at_regs 26, (at_regs 27, tt))),
                                            ),
                                          ),
                                        ),
                                      ),
                                    ),
                                  ),
                                ),
                              ),
                            ),
                          ),
                        ),
                      ),
                    ),
                  ),
                ),
              ),
            ),
          ),
        ),
      ),
    ),
    at_word frame_loaded.reg 240 refl,
    at_word frame_loaded.reg 248 refl,
    at_current argc_offset,
    at_current argv_offset,
    at_word frame_loaded.reg 248 refl,
  )
