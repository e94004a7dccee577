-- ===== src/Machine.antt =====
-- The assembly of kernel/context.c, kernel/trap.c and kernel/user.c: the instructions it uses on a
-- processor with 32 registers, memory by words, and three control registers. Registers have their
-- numbers; `fence.i` and the TLB have no effect here. A jump ends a list of instructions.
pub mod Frame
pub mod Switch
pub mod Trap
pub mod Return
mod Tests
use riscv_os.Prelude.{
  u64, ℕ, suc, ◌+◌, ◌-◌, ◌*◌, ◌/◌, ◌%◌, ◌^◌, Bool, false, ◌||◌, List, [], ◌∷◌, ◌++◌, ◌==◌,
  if◌then◌else◌,
}
use riscv_os.Frames.{store}

pub data Csr : Type 0 where
  sscratch sepc sstatus : Csr

pub record Cpu : Type 0 where
  pub reg : ℕ → ℕ
  pub word : ℕ → ℕ
  pub sscratch : ℕ
  pub sepc : ℕ
  pub sstatus : ℕ

-- Immediates are 64-bit numbers, a negative one its two's complement.
pub data Instr : Type 0 where
  sd : (rs imm base : ℕ) → Instr
  ld : (rd imm base : ℕ) → Instr
  addi : (rd rs imm : ℕ) → Instr
  add : (rd rs rs' : ℕ) → Instr
  li : (rd value : ℕ) → Instr
  csrrw : (rd : ℕ) → Csr → (rs : ℕ) → Instr
  csrr : (rd : ℕ) → Csr → Instr
  csrw : Csr → (rs : ℕ) → Instr
  set_bit : (rd bit : ℕ) → Instr
  clear_bit : (rd bit : ℕ) → Instr

unfoldable pub with_reg : ℕ → ℕ → Cpu → Cpu
with_reg r v c = record c { reg = λ j. if j == r then v else c.reg j }

abbrev pub read_csr : Csr → Cpu → ℕ
read_csr Csr.sscratch c = c.sscratch
read_csr Csr.sepc c = c.sepc
read_csr Csr.sstatus c = c.sstatus

abbrev pub with_csr : Csr → ℕ → Cpu → Cpu
with_csr Csr.sscratch v c = record c { sscratch = v }
with_csr Csr.sepc v c = record c { sepc = v }
with_csr Csr.sstatus v c = record c { sstatus = v }

-- `ori rd, rd, 1 << bit` and `andi rd, rd, ~(1 << bit)`
abbrev pub bit_on : ℕ → ℕ → ℕ
bit_on v bit = if v / 2 ^ bit % 2 == 1 then v else v + 2 ^ bit

abbrev pub bit_off : ℕ → ℕ → ℕ
bit_off v bit = if v / 2 ^ bit % 2 == 1 then v - 2 ^ bit else v

unfoldable pub step : Instr → Cpu → Cpu
unfolding with_reg store
step (sd rs imm base) c = record c { word = store c.word (u64 (c.reg base + imm)) (c.reg rs) }
step (ld rd imm base) c = with_reg rd (c.word (u64 (c.reg base + imm))) c
step (addi rd rs imm) c = with_reg rd (u64 (c.reg rs + imm)) c
step (add rd rs rs') c = with_reg rd (u64 (c.reg rs + c.reg rs')) c
step (li rd value) c = with_reg rd value c
step (csrrw rd csr rs) c = with_csr csr (c.reg rs) (with_reg rd (read_csr csr c) c)
step (csrr rd csr) c = with_reg rd (read_csr csr c) c
step (csrw csr rs) c = with_csr csr (c.reg rs) c
step (set_bit rd bit) c = with_reg rd (bit_on (c.reg rd) bit) c
step (clear_bit rd bit) c = with_reg rd (bit_off (c.reg rd) bit) c

unfoldable pub run : List Instr → Cpu → Cpu
unfolding step
run [] c = c
run (i ∷ is) c = run is (step i c)

-- Numbers of registers
abbrev pub ra : ℕ
ra = 1

abbrev pub sp : ℕ
sp = 2

abbrev pub t0 : ℕ
t0 = 5

abbrev pub t1 : ℕ
t1 = 6

abbrev pub t2 : ℕ
t2 = 7

abbrev pub t3 : ℕ
t3 = 28

abbrev pub a0 : ℕ
a0 = 10

abbrev pub a1 : ℕ
a1 = 11

-- `sd r, imm(base)` for registers one after the other, from an offset on, and `ld` likewise.
unfoldable pub saves : ℕ → ℕ → List ℕ → List Instr
saves base imm [] = []
saves base imm (r ∷ rs) = sd r imm base ∷ saves base (imm + 8) rs

unfoldable pub loads : ℕ → ℕ → List ℕ → List Instr
loads base imm [] = []
loads base imm (r ∷ rs) = ld r imm base ∷ loads base (imm + 8) rs

-- s0 to s11
abbrev pub saved_regs : List ℕ
saved_regs = 8 ∷ 9 ∷ 18 ∷ 19 ∷ 20 ∷ 21 ∷ 22 ∷ 23 ∷ 24 ∷ 25 ∷ 26 ∷ 27 ∷ []

-- `regs_t` in its order: ra, gp, tp, t0 to t6, a0 to a7, s0 to s11
abbrev pub frame_regs : List ℕ
frame_regs =
    1 ∷ 3 ∷ 4 ∷ 5 ∷ 6 ∷ 7 ∷ 28 ∷ 29 ∷ 30 ∷ 31 ∷ 10 ∷ 11 ∷ 12 ∷ 13 ∷ 14 ∷ 15 ∷ 16 ∷ 17 ∷ saved_regs

-- `switch_context_sp`, up to its `ret`
unfoldable pub switch_save : List Instr
unfolding saves
switch_save = addi sp sp (2 ^ 64 - 13 * 8) ∷ (saves sp 0 (ra ∷ saved_regs) ++ (sd sp 0 a0 ∷ []))

unfoldable pub switch_load : List Instr
unfolding loads
switch_load = ld sp 0 a1 ∷ (loads sp 0 (ra ∷ saved_regs) ++ (addi sp sp (13 * 8) ∷ []))

unfoldable pub switch_context_sp : Cpu → Cpu
unfolding run switch_save switch_load
switch_context_sp c = run switch_load (run switch_save c)

-- `trap_vector` up to the call of `trap_handler`
unfoldable pub trap_entry : List Instr
unfolding saves
trap_entry =
    csrrw sp Csr.sscratch sp
    ∷ addi sp sp (2 ^ 64 - 8 * 32)
    ∷ (saves sp 0 frame_regs
        ++ (csrr a0 Csr.sscratch
            ∷ sd a0 (8 * 30) sp
            ∷ csrr a1 Csr.sepc
            ∷ sd a1 (8 * 31) sp
            ∷ addi a0 sp (8 * 32)
            ∷ csrw Csr.sscratch a0
            ∷ addi a0 sp 0
            ∷ []))

-- `trap_vector` behind the call, up to its `sret`
unfoldable pub trap_exit : List Instr
unfolding loads
trap_exit = loads sp 0 frame_regs ++ (ld sp (8 * 30) sp ∷ [])

-- `user_return`, for the address of `current_proc` and the offsets of fields in `proc_t`
module _ (current_proc tf_offset argc_offset argv_offset : ℕ) where
  unfoldable pub return_frame : List Instr
  unfolding loads
  return_frame =
      li t0 current_proc
      ∷ ld t0 0 t0
      ∷ ld a0 tf_offset t0
      ∷ (loads a0 0 (1 ∷ 3 ∷ 4 ∷ 5 ∷ 6 ∷ 7 ∷ 28 ∷ 29 ∷ 30 ∷ 31 ∷ [])
          ++ loads a0 (11 * 8) (11 ∷ 12 ∷ 13 ∷ 14 ∷ 15 ∷ 16 ∷ 17 ∷ saved_regs))

  unfoldable pub return_state : List Instr
  return_state =
      ld sp 240 a0
      ∷ ld t0 248 a0
      ∷ csrw Csr.sepc t0
      ∷ csrr t1 Csr.sstatus
      ∷ set_bit t1 5
      ∷ clear_bit t1 8
      ∷ csrw Csr.sstatus t1
      ∷ []

  unfoldable pub return_arguments : List Instr
  return_arguments =
      li t2 current_proc
      ∷ ld t2 0 t2
      ∷ li t3 argc_offset
      ∷ add t3 t2 t3
      ∷ ld a0 0 t3
      ∷ li t3 argv_offset
      ∷ add t3 t2 t3
      ∷ ld a1 0 t3
      ∷ []

  unfoldable pub user_return : Cpu → Cpu
  unfolding run return_frame return_state return_arguments
  user_return c = run return_arguments (run return_state (run return_frame c))
