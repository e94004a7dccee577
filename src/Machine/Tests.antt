-- ===== src/Machine/Tests.antt =====
-- The theorems on the assembly at concrete states of the processor.
use riscv_os.Prelude.{ℕ, ◌+◌, ◌*◌, ◌≤◌, ◌<◌, ◌≡◌, refl, inr, true, ◌∷◌, ◌==◌, if◌then◌else◌, arith}
use riscv_os.Machine.{
  Cpu, run, sp, a0, a1, t0, frame_regs, switch_save, switch_load, trap_entry, trap_exit,
  user_return,
}
use riscv_os.Machine.Frame.{contains, Holds}
use riscv_os.Machine.Switch.{switch_load-switch_save}
use riscv_os.Machine.Trap.{Entered, trap_vector-Entered}
use riscv_os.Machine.Return.{Same, returned_regs, user_return-Same}

-- Register r holds 0x1000 + 16 r, and every word its own address.
abbrev cpu : Cpu
cpu = record {
  reg = λ r. 0x1000 + 16 * r;
  word = λ a. a;
  sscratch = 0x9000;
  sepc = 0x1000000;
  sstatus = 0x100;
}

-- The process leaves with `sp` field 0x10a0, and the idle process, which runs next, switches back.
abbrev leaving : Cpu
leaving = run switch_save cpu

abbrev arriving : Cpu
arriving = record leaving { reg = λ r. if r == a1 then 0x10a0 else 7 }

switch_load-switch_save_example : (run switch_load arriving).reg sp ≡ 0x1020
switch_load-switch_save_example =
    switch_load-switch_save cpu arriving (omega arith) (omega arith) (inr (omega arith))
      (omega arith) refl refl (λ a low high. refl) sp refl

trap_vector-Entered_example :
    Entered cpu (run trap_entry cpu)
    × ((d : Cpu)
        → d.reg sp ≡ 0x8f00
        → ((a : ℕ) → 0x8f00 ≤ a → a < 0x9000 → d.word a ≡ (run trap_entry cpu).word a)
        → (r : ℕ) → contains (sp ∷ frame_regs) r ≡ true
        → (run trap_exit d).reg r ≡ cpu.reg r)
trap_vector-Entered_example = trap_vector-Entered cpu (omega arith) (omega arith)

-- `current_proc` at 0x100 points to 0x100, and the field `tf` at 0x100 + 0x50 to the frame at 0x150,
-- which has the address of each register's place in it.
abbrev frame_values : ℕ → ℕ
frame_values r =
    if r == 1
    then 0x150
    else if r == 3
    then 0x158
    else if r == 4
    then 0x160
    else if r == 5
    then 0x168
    else if r == 6
    then 0x170
    else if r == 7
    then 0x178
    else if r == 28
    then 0x180
    else if r == 29
    then 0x188
    else if r == 30
    then 0x190
    else if r == 31
    then 0x198
    else if r == 10
    then 0x1a0
    else if r == 11
    then 0x1a8
    else if r == 12
    then 0x1b0
    else if r == 13
    then 0x1b8
    else if r == 14
    then 0x1c0
    else if r == 15
    then 0x1c8
    else if r == 16
    then 0x1d0
    else if r == 17
    then 0x1d8
    else if r == 8
    then 0x1e0
    else if r == 9
    then 0x1e8
    else if r == 18
    then 0x1f0
    else if r == 19
    then 0x1f8
    else if r == 20
    then 0x200
    else if r == 21
    then 0x208
    else if r == 22
    then 0x210
    else if r == 23
    then 0x218
    else if r == 24
    then 0x220
    else if r == 25
    then 0x228
    else if r == 26
    then 0x230
    else 0x238

frame_Holds : Holds cpu.word 0x150 0 frame_regs frame_values
frame_Holds = (
  refl,
  (
    refl,
    (
      refl,
      (
        refl,
        (
          refl,
          (
            refl,
            (
              refl,
              (
                refl,
                (
                  refl,
                  (
                    refl,
                    (
                      refl,
                      (
                        refl,
                        (
                          refl,
                          (
                            refl,
                            (
                              refl,
                              (
                                refl,
                                (
                                  refl,
                                  (
                                    refl,
                                    (
                                      refl,
                                      (
                                        refl,
                                        (
                                          refl,
                                          (
                                            refl,
                                            (
                                              refl,
                                              (
                                                refl,
                                                (refl, (refl, (refl, (refl, (refl, (refl, tt)))))),
                                              ),
                                            ),
                                          ),
                                        ),
                                      ),
                                    ),
                                  ),
                                ),
                              ),
                            ),
                          ),
                        ),
                      ),
                    ),
                  ),
                ),
              ),
            ),
          ),
        ),
      ),
    ),
  ),
)

user_return-Same_example :
    Same (user_return 0x100 0x50 0x60 0x68 cpu).reg frame_values returned_regs
    × ((user_return 0x100 0x50 0x60 0x68 cpu).reg sp ≡ 0x240)
    × ((user_return 0x100 0x50 0x60 0x68 cpu).sepc ≡ 0x248)
    × ((user_return 0x100 0x50 0x60 0x68 cpu).reg a0 ≡ 0x160)
    × ((user_return 0x100 0x50 0x60 0x68 cpu).reg a1 ≡ 0x168)
    × ((user_return 0x100 0x50 0x60 0x68 cpu).reg t0 ≡ 0x248)
user_return-Same_example =
    user_return-Same 0x100 0x50 0x60 0x68 cpu frame_values 0x150 refl frame_Holds
