-- ===== src/Format.antt =====
-- kernel/common.c: numbers as text, and `kvnprintf`. The result of `kvnprintf` is what it writes to
-- the buffer, from its first byte on; `none` is a read behind the end of a string, an argument that
-- is not there, or an access behind a local buffer.
pub mod Bounds
mod Tests
use mathlib.Core.Option
use riscv_os.Prelude.{
  u64, ℕ, zero, suc, ◌+◌, ◌-◌, ◌*◌, ◌/◌, ◌%◌, ◌^◌, Bool, true, false, not, ◌&&◌, ◌||◌, Option, none,
  some, List, [], ◌∷◌, ◌++◌, leb, ltb, ◌==◌, if◌then◌else◌, ◌>>=◌, length, get_or, take,
}
use riscv_os.Uart.{Arg, number, string}

-- `digits`
abbrev pub digits : List ℕ
digits =
    b'0' ∷ b'1' ∷ b'2' ∷ b'3' ∷ b'4' ∷ b'5' ∷ b'6' ∷ b'7' ∷ b'8' ∷ b'9' ∷ b'a' ∷ b'b' ∷ b'c' ∷ b'd'
    ∷ b'e' ∷ b'f' ∷ []

-- The two loops of `itoa_unsigned`: the places left in `buf`, and the digits so far, inverted.
unfoldable pub itoa_loop : ℕ → ℕ → ℕ → List ℕ → Option (List ℕ)
itoa_loop base zero value acc = none
itoa_loop base (suc i) value acc =
    let rest = itoa_loop base i (value / base) (get_or digits (value % base) 0 ∷ acc) in
    if value / base == 0 then some (get_or digits (value % base) 0 ∷ acc) else rest

-- The text without its terminator.
unfoldable pub itoa_unsigned : ℕ → ℕ → Option (List ℕ)
unfolding itoa_loop
itoa_unsigned value base = if ltb base 2 || ltb 16 base then some [] else itoa_loop base 33 value []

-- An `int` is given by its 32 bits.
unfoldable pub itoa_signed : ℕ → ℕ → Option (List ℕ)
unfolding itoa_unsigned
itoa_signed value base =
    if ltb base 2 || ltb 16 base
    then some []
    else if leb (2 ^ 31) value && base == 10
    then Option.map (λ s. b'-' ∷ s) (itoa_unsigned ((2 ^ 32 - value) % 2 ^ 32) base)
    else itoa_unsigned value base

-- `while (s && *s && i < size - 1)`, for a string that is not null and the room that is left.
unfoldable pub take_text : ℕ → List ℕ → Option (List ℕ)
take_text room [] = none
take_text room (c ∷ s) =
    if c == 0 || room == 0 then some [] else Option.map (λ out. c ∷ out) (take_text (room - 1) s)

abbrev pub take_some : ℕ → Option (List ℕ) → Option (List ℕ)
take_some room none = none
take_some room (some s) = some (take room s)

-- The conversions of a number, for its 64 bits.
unfoldable pub number_text : ℕ → ℕ → ℕ → Option (List ℕ)
unfolding itoa_signed itoa_unsigned
number_text spec room v =
    if spec == b'd'
    then take_some room (itoa_signed (v % 2 ^ 32) 10)
    else if spec == b'u'
    then take_some room (itoa_unsigned (v % 2 ^ 32) 10)
    else if spec == b'x'
    then take_some room (itoa_unsigned (v % 2 ^ 32) 16)
    else if spec == b'p'
    then take_some room (Option.map (λ s. b'0' ∷ b'x' ∷ s) (itoa_unsigned (v % 2 ^ 32) 16))
    else some (take room (v % 256 ∷ []))

abbrev pub is_number : ℕ → Bool
is_number c = c == b'd' || (c == b'u' || (c == b'x' || (c == b'p' || c == b'c')))

-- `'%'` and the default case of the switch
abbrev pub literal : ℕ → ℕ → List ℕ
literal spec room = take room (if spec == b'%' then b'%' ∷ [] else b'%' ∷ spec ∷ [])

abbrev pub with_rest : List Arg → Option (List ℕ) → Option (List ℕ × List Arg)
with_rest args none = none
with_rest args (some s) = some (s, args)

-- `switch (spec)`: what is written, and the arguments that are left; there is room for one byte.
unfoldable pub expand : ℕ → ℕ → List Arg → Option (List ℕ × List Arg)
unfolding number_text take_text
expand spec room [] = if is_number spec || spec == b's' then none else some (literal spec room, [])
expand spec room (number v ∷ args) =
    if is_number spec
    then with_rest args (number_text spec room v)
    else if spec == b's'
    then none
    else some (literal spec room, number v ∷ args)
expand spec room (string none ∷ args) =
    if is_number spec
    then none
    else if spec == b's'
    then some ([], args)
    else some (literal spec room, string none ∷ args)
expand spec room (string (some s) ∷ args) =
    if is_number spec
    then none
    else if spec == b's'
    then with_rest args (take_text room s)
    else some (literal spec room, string (some s) ∷ args)

-- The loop, for `size - 1` and the index `i`.
unfoldable pub format_loop : ℕ → ℕ → List ℕ → List Arg → Option (List ℕ)
unfolding expand
format_loop top i [] args = none
format_loop top i (c ∷ []) args = if c == 0 || not (ltb i top) then some [] else none
format_loop top i (c ∷ d ∷ fmt) args =
    let next = format_loop top (i + 1) (d ∷ fmt) args in
    if c == 0 || not (ltb i top)
    then some []
    else if c == b'%' && not (d == 0)
    then (expand d (top - i) args >>= λ (out, args').
        Option.map (λ rest. out ++ rest) (format_loop top (i + length out) fmt args'))
    else Option.map (λ rest. c ∷ rest) next

-- All bytes that are written, with the terminator; the result of the call is one less than their
-- number.
unfoldable pub kvnprintf : ℕ → List ℕ → List Arg → Option (List ℕ)
unfolding format_loop
kvnprintf size fmt args =
    Option.map (λ out. out ++ (0 ∷ [])) (format_loop (u64 (size + (2 ^ 64 - 1))) 0 fmt args)
