-- ===== src/Arguments.antt =====
-- kernel/arguments.c: `setup_user_arguments`, which puts a program's arguments on its stack. A row of
-- `argv_kernel` is the list of the bytes from its address on. `none` is a PANIC, a row without an
-- end, or more rows than `argv_ptrs` has places. What is stored is returned as the addresses with their bytes.
pub mod Placed
mod Tests
use riscv_os.Prelude.{
  u64, ℕ, ◌+◌, ◌-◌, ◌*◌, ◌/◌, ◌^◌, Option, none, some, List, [], ◌∷◌, ◌++◌, ltb, if◌then◌else◌,
  ◌>>=◌, length, take, map,
}
use riscv_os.Text.{strnlen}

abbrev pub max_arg_length : ℕ
max_arg_length = 128

abbrev pub max_args : ℕ
max_args = 8

-- `sp -= len; sp &= ~0x7UL`
abbrev pub push_down : ℕ → ℕ → ℕ
push_down sp len = u64 (sp + (2 ^ 64 - len)) / 8 * 8

-- The bytes at an address.
pub record Stored : Type 0 where
  pub address : ℕ
  pub bytes : List ℕ

-- The loop, for the rows from the last to the first and `g_user_stack_bottom`.
unfoldable pub place_rows : ℕ → ℕ → List (List ℕ) → List Stored → Option (ℕ × List Stored)
place_rows bottom sp [] acc = some (sp, acc)
place_rows bottom sp (row ∷ rows) acc = strnlen row max_arg_length >>= λ n.
    if ltb (push_down sp (n + 1)) bottom
    then none
    else place_rows bottom (push_down sp (n + 1)) rows
        (record { address = push_down sp (n + 1); bytes = take (n + 1) row } ∷ acc)

abbrev pub reversed : List (List ℕ) → List (List ℕ) → List (List ℕ)
reversed [] acc = acc
reversed (row ∷ rows) acc = reversed rows (row ∷ acc)

-- `argv_ptrs` with its null pointer
abbrev pub pointers : List Stored → List ℕ
pointers [] = 0 ∷ []
pointers (s ∷ ss) = s.address ∷ pointers ss

-- The new stack pointer, where the pointers are stored too, and what is stored above them.
pub record Arguments : Type 0 where
  pub sp : ℕ
  pub argv : List ℕ
  pub strings : List Stored

-- The second half, for `argc`.
unfoldable pub place_pointers : ℕ → ℕ → ℕ × List Stored → Option Arguments
place_pointers bottom argc (sp, strings) =
    if ltb (push_down sp ((argc + 1) * 8)) bottom
    then none
    else some
        (record { sp = push_down sp ((argc + 1) * 8); argv = pointers strings; strings = strings })

unfoldable pub setup_user_arguments : ℕ → List (List ℕ) → ℕ → Option Arguments
unfolding place_rows place_pointers
setup_user_arguments bottom rows sp =
    if ltb max_args (length rows)
    then none
    else (place_rows bottom sp (reversed rows []) [] >>= λ placed.
        place_pointers bottom (length rows) placed)
