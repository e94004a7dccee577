-- ===== src/Uart.antt =====
-- kernel/uart.c: what the functions write. A function's result is the bytes that it passes to
-- `uart_putc`, in order; `none` is a read behind the end of a string, or an argument that is not
-- there. A string is the list of the bytes from its address on, with its terminator.
pub mod Digits
mod Tests
use mathlib.Core.Option
use riscv_os.Prelude.{
  u64, ℕ, zero, suc, ◌+◌, ◌-◌, ◌*◌, ◌/◌, ◌%◌, ◌^◌, Bool, true, false, not, ◌&&◌, ◌||◌, Option, none,
  some, List, [], ◌∷◌, ◌++◌, leb, ltb, ◌==◌, if◌then◌else◌, ◌>>=◌, length, get_or, replicate,
}

unfoldable pub uart_puts : List ℕ → Option (List ℕ)
uart_puts [] = none
uart_puts (c ∷ s) = if c == 0 then some [] else Option.map (λ out. c ∷ out) (uart_puts s)

-- `HEX_DIGITS`
abbrev pub hex_digits : List ℕ
hex_digits =
    b'0' ∷ b'1' ∷ b'2' ∷ b'3' ∷ b'4' ∷ b'5' ∷ b'6' ∷ b'7' ∷ b'8' ∷ b'9' ∷ b'A' ∷ b'B' ∷ b'C' ∷ b'D'
    ∷ b'E' ∷ b'F' ∷ []

abbrev pub hex_prefix : List ℕ
hex_prefix = b'0' ∷ b'x' ∷ []

unfoldable pub uart_puthex8 : ℕ → List ℕ
uart_puthex8 val = get_or hex_digits (val / 16 % 16) 0 ∷ get_or hex_digits (val % 16) 0 ∷ []

unfoldable pub uart_puthex16 : ℕ → List ℕ
unfolding uart_puthex8
uart_puthex16 val = uart_puthex8 (val / 256 % 256) ++ uart_puthex8 (val % 256)

unfoldable pub uart_puthex32 : ℕ → List ℕ
unfolding uart_puthex16
uart_puthex32 val = uart_puthex16 (val / 65536 % 65536) ++ uart_puthex16 (val % 65536)

unfoldable pub uart_puthex64 : ℕ → List ℕ
unfolding uart_puthex32
uart_puthex64 val = uart_puthex32 (val / 4294967296) ++ uart_puthex32 (val % 4294967296)

unfoldable pub uart_puthex8_prefixed : ℕ → List ℕ
unfolding uart_puthex8
uart_puthex8_prefixed val = hex_prefix ++ uart_puthex8 val

unfoldable pub uart_puthex16_prefixed : ℕ → List ℕ
unfolding uart_puthex16
uart_puthex16_prefixed val = hex_prefix ++ uart_puthex16 val

unfoldable pub uart_puthex32_prefixed : ℕ → List ℕ
unfolding uart_puthex32
uart_puthex32_prefixed val = hex_prefix ++ uart_puthex32 val

unfoldable pub uart_puthex64_prefixed : ℕ → List ℕ
unfolding uart_puthex64
uart_puthex64_prefixed val = hex_prefix ++ uart_puthex64 val

-- `'0' + digit`, or `'a' + digit - 10`
abbrev pub digit_char : ℕ → ℕ
digit_char d = if ltb d 10 then 48 + d else 87 + d

-- The loop `while (value && i >= 0)` of three functions: the places left in the buffer, the value,
-- and the bytes that stand in the buffer behind them.
unfoldable pub digit_loop : ℕ → ℕ → ℕ → List ℕ → List ℕ
digit_loop base zero value acc = acc
digit_loop base (suc i) value acc =
    let rest = digit_loop base i (value / base) (digit_char (value % base) ∷ acc) in
    if value == 0 then acc else rest

unfoldable pub uart_put_udec : ℕ → List ℕ
unfolding digit_loop
uart_put_udec value = if value == 0 then b'0' ∷ [] else digit_loop 10 20 value []

-- `(int64_t)val < 0`
abbrev pub is_negative : ℕ → Bool
is_negative val = leb (2 ^ 63) val

abbrev pub negate : ℕ → ℕ
negate val = u64 (2 ^ 64 - val)

-- An `int64_t` is given by its 64 bits.
unfoldable pub uart_put_dec : ℕ → List ℕ
unfolding uart_put_udec
uart_put_dec value =
    if is_negative value then b'-' ∷ uart_put_udec (negate value) else uart_put_udec value

-- `width` is not negative.
unfoldable pub uart_puthex : ℕ → ℕ → List ℕ
unfolding digit_loop
uart_puthex value width =
    let digits = if value == 0 then b'0' ∷ [] else digit_loop 16 16 value [] in
    replicate (width - length digits) b'0' ++ digits

-- The digits and the padding of `uart_putpad`; `len` counts the terminator too.
unfoldable pub pad_digits : ℕ → ℕ → ℕ → Bool → List ℕ
unfolding digit_loop
pad_digits val base width zero_pad =
    let digits = if val == 0 then b'0' ∷ [] else digit_loop base 31 val [] in
    replicate (width - (length digits + 1)) (if zero_pad then b'0' else b' ') ++ digits

unfoldable pub uart_putpad : ℕ → ℕ → ℕ → Bool → Bool → List ℕ
unfolding pad_digits
uart_putpad val base width zero_pad signed_val =
    if signed_val && is_negative val
    then b'-' ∷ pad_digits (negate val) base width zero_pad
    else pad_digits val base width zero_pad

-- An argument of `uart_printf`: the 64 bits of a number, or a string that may be null.
pub data Arg : Type 0 where
  number : ℕ → Arg
  string : Option (List ℕ) → Arg

-- An `int` as 64 bits
abbrev pub sign_extend : ℕ → ℕ
sign_extend v = let w = v % 2 ^ 32 in if ltb w (2 ^ 31) then w else w + (2 ^ 64 - 2 ^ 32)

-- The number conversions; `is_long` is a length of 1 or 2.
unfoldable pub put_number : ℕ → ℕ → Bool → Bool → ℕ → List ℕ
unfolding uart_putpad uart_puthex
put_number conversion width zero_pad is_long v =
    if conversion == b'd'
    then uart_putpad (if is_long then v else sign_extend v) 10 width zero_pad true
    else if conversion == b'u'
    then uart_putpad (if is_long then v else v % 2 ^ 32) 10 width zero_pad false
    else if conversion == b'x'
    then uart_puthex (if is_long then v else v % 2 ^ 32) width
    else if conversion == b'p'
    then hex_prefix ++ uart_puthex v 16
    else v % 256 ∷ []

abbrev pub takes_number : ℕ → Bool
takes_number c = c == b'd' || (c == b'u' || (c == b'x' || (c == b'p' || c == b'c')))

abbrev pub null_text : List ℕ
null_text = b'(' ∷ b'n' ∷ b'u' ∷ b'l' ∷ b'l' ∷ b')' ∷ []

-- `switch (*fmt)`: the bytes, and the arguments that are left.
unfoldable pub convert : ℕ → ℕ → Bool → Bool → List Arg → Option (List ℕ × List Arg)
unfolding put_number
convert c width zero_pad is_long [] =
    if takes_number c || c == b's'
    then none
    else if c == b'%'
    then some (b'%' ∷ [], [])
    else some (b'%' ∷ c ∷ [], [])
convert c width zero_pad is_long (number v ∷ args) =
    if takes_number c
    then some (put_number c width zero_pad is_long v, args)
    else if c == b's'
    then none
    else if c == b'%'
    then some (b'%' ∷ [], number v ∷ args)
    else some (b'%' ∷ c ∷ [], number v ∷ args)
convert c width zero_pad is_long (string s ∷ args) =
    if takes_number c
    then none
    else if c == b's'
    then elim s [
      | none ↦ some (null_text, args)
      | some t ↦ Option.map (λ out. (out, args)) (uart_puts t)
    ]
    else if c == b'%'
    then some (b'%' ∷ [], string s ∷ args)
    else some (b'%' ∷ c ∷ [], string s ∷ args)

abbrev pub is_digit : ℕ → Bool
is_digit c = leb 48 c && leb c 57

-- What of a conversion was read: its `%` only, also its `0`, or also an `l`.
pub data Mode : Type 0 where
  plain : Mode
  flags : Mode
  field : Bool → ℕ → Mode
  one_l : Bool → ℕ → Mode
  two_l : Bool → ℕ → Mode

-- One byte of the format at a time. The width is a number without bound: a format of the program's
-- with a width beyond an `int` is left out.
unfoldable pub printf_loop : Mode → List ℕ → List Arg → Option (List ℕ)
unfolding convert
printf_loop mode [] args = none
printf_loop plain (c ∷ fmt) args =
    let after = printf_loop flags fmt args in
    let next = printf_loop plain fmt args in
    if c == 0 then some [] else if c == b'%' then after else Option.map (λ out. c ∷ out) next
printf_loop flags (c ∷ fmt) args =
    let zero_next = printf_loop (field true 0) fmt args in
    let digit_next = printf_loop (field false (c - 48)) fmt args in
    let long_next = printf_loop (one_l false 0) fmt args in
    if c == b'0'
    then zero_next
    else if is_digit c
    then digit_next
    else if c == b'l'
    then long_next
    else convert c 0 false false args >>= λ (out, args').
        Option.map (λ rest. out ++ rest) (printf_loop plain fmt args')
printf_loop (field zero_pad width) (c ∷ fmt) args =
    let digit_next = printf_loop (field zero_pad (width * 10 + (c - 48))) fmt args in
    let long_next = printf_loop (one_l zero_pad width) fmt args in
    if is_digit c
    then digit_next
    else if c == b'l'
    then long_next
    else convert c width zero_pad false args >>= λ (out, args').
        Option.map (λ rest. out ++ rest) (printf_loop plain fmt args')
printf_loop (one_l zero_pad width) (c ∷ fmt) args =
    let long_next = printf_loop (two_l zero_pad width) fmt args in
    if c == b'l'
    then long_next
    else convert c width zero_pad true args >>= λ (out, args').
        Option.map (λ rest. out ++ rest) (printf_loop plain fmt args')
printf_loop (two_l zero_pad width) (c ∷ fmt) args =
    convert c width zero_pad true args >>= λ (out, args').
    Option.map (λ rest. out ++ rest) (printf_loop plain fmt args')

unfoldable pub uart_printf : List ℕ → List Arg → Option (List ℕ)
unfolding printf_loop
uart_printf fmt args = printf_loop plain fmt args

abbrev pub uart_cls : List ℕ
uart_cls = 27 ∷ b'[' ∷ b'2' ∷ b'J' ∷ 27 ∷ b'[' ∷ b'H' ∷ []
