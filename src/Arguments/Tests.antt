-- ===== src/Arguments/Tests.antt =====
-- kernel/arguments.c: two arguments.
use riscv_os.Prelude.{ℕ, ◌+◌, ◌*◌, ◌%◌, ◌≤◌, ◌≡◌, refl, some, List, [], ◌∷◌, arith, length}
use riscv_os.Text.{strnlen}
use riscv_os.Arguments.{Arguments, pointers, setup_user_arguments}
use riscv_os.Arguments.Placed.{AllEnd, Placed, SameStrings, setup_user_arguments-Placed}

-- "echo" and "hi"
abbrev echo_hi : List (List ℕ)
echo_hi = (b'e' ∷ b'c' ∷ b'h' ∷ b'o' ∷ 0 ∷ []) ∷ (b'h' ∷ b'i' ∷ 0 ∷ []) ∷ []

echo_hi-AllEnd : AllEnd echo_hi
unfolding strnlen
echo_hi-AllEnd = ((4, refl, omega arith), ((2, refl, omega arith), tt))

setup_user_arguments-Placed_example :
    (r : Arguments) × (setup_user_arguments 0x1010000 echo_hi 0x1020000 ≡ some r)
    × (0x1010000 ≤ r.sp)
    × (r.sp % 8 ≡ 0)
    × Placed (r.sp + 8 * (length echo_hi + 1)) 0x1020000 r.strings
    × SameStrings echo_hi r.strings
    × (r.argv ≡ pointers r.strings)
setup_user_arguments-Placed_example =
    setup_user_arguments-Placed 0x1010000 0x1020000 echo_hi (omega arith) echo_hi-AllEnd
      (omega arith) (omega arith)
