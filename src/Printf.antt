-- ===== src/Printf.antt =====
-- user/lib/printf.c: the output of programs. A function's result is the system calls that it makes,
-- in order; `none` is a read behind the end of a string, or an argument that is not there. The
-- arguments, the modes of the reader and the loop that writes digits are those of Uart, whose
-- source has the same text.
pub mod Calls
pub mod Says
pub mod Switch
pub mod Same
mod Tests
use mathlib.Core.Option
use riscv_os.Prelude.{
  ℕ, zero, suc, ◌+◌, ◌-◌, ◌*◌, ◌%◌, ◌^◌, Bool, true, false, not, ◌&&◌, ◌||◌, Option, none, some,
  List, [], ◌∷◌, ◌++◌, map, leb, ltb, ◌==◌, if◌then◌else◌, ◌>>=◌, length, replicate,
}
use riscv_os.Text.{strlen}
use riscv_os.Uart.{
  hex_prefix, digit_loop, is_negative, negate, Arg, number, string, sign_extend, takes_number,
  null_text, is_digit, Mode, plain, flags, field, one_l, two_l,
}

-- user/lib/syscall.c: a call of the library, for the console: a byte, or `len` bytes of those from
-- `buf` on for a file descriptor.
pub data Call : Type 0 where
  putchar : ℕ → Call
  write : (fd : ℕ) (buf : List ℕ) (len : ℕ) → Call

-- A `char` has no sign on this machine.
unfoldable pub putc : ℕ → List Call
putc ch = putchar (ch % 256) ∷ []

unfoldable pub puts : List ℕ → Option (List Call)
unfolding strlen
puts buf = Option.map (λ len. Call.write 1 buf len ∷ []) (strlen buf)

-- The loop over `putc` for the padding
abbrev pub put_fill : ℕ → ℕ → List Call
put_fill n ch = map putchar (replicate n ch)

-- `width` is not negative.
unfoldable pub puthex : ℕ → ℕ → Option (List Call)
unfolding digit_loop puts
puthex value width =
    let digits = if value == 0 then b'0' ∷ [] else digit_loop 16 16 value [] in
    Option.map (λ calls. put_fill (width - length digits) b'0' ++ calls) (puts (digits ++ 0 ∷ []))

-- The padding and the digits of `putpad`; `len` counts the terminator too.
unfoldable pub putpad_digits : ℕ → ℕ → ℕ → Bool → Option (List Call)
unfolding digit_loop puts
putpad_digits val base width zero_pad =
    let digits = if val == 0 then b'0' ∷ [] else digit_loop base 31 val [] in
    let fill = put_fill (width - (length digits + 1)) (if zero_pad then b'0' else b' ') in
    Option.map (λ calls. fill ++ calls) (puts (digits ++ 0 ∷ []))

unfoldable pub putpad : ℕ → ℕ → ℕ → Bool → Bool → Option (List Call)
unfolding putpad_digits putc
putpad val base width zero_pad signed_val =
    if signed_val && is_negative val
    then Option.map (λ calls. putc b'-' ++ calls) (putpad_digits (negate val) base width zero_pad)
    else putpad_digits val base width zero_pad

-- The number conversions; `is_long` is a length of 1 or 2.
unfoldable pub printf_number : ℕ → ℕ → Bool → Bool → ℕ → Option (List Call)
unfolding putpad puthex
printf_number conversion width zero_pad is_long v =
    if conversion == b'd'
    then putpad (if is_long then v else sign_extend v) 10 width zero_pad true
    else if conversion == b'u'
    then putpad (if is_long then v else v % 2 ^ 32) 10 width zero_pad false
    else if conversion == b'x'
    then puthex (if is_long then v else v % 2 ^ 32) width
    else if conversion == b'p'
    then (puts (hex_prefix ++ 0 ∷ []) >>= λ calls. Option.map (λ rest. calls ++ rest) (puthex v 16))
    else some (putc v)

-- `default`, and the case of `%`
abbrev pub printf_other : ℕ → List Call
printf_other c = if c == b'%' then putc b'%' else putc b'%' ++ putc c

-- `switch (*fmt)`: the calls, and the arguments that are left.
unfoldable pub printf_switch : ℕ → ℕ → Bool → Bool → List Arg → Option (List Call × List Arg)
unfolding printf_number putc
printf_switch c width zero_pad is_long [] =
    if takes_number c || c == b's' then none else some (printf_other c, [])
printf_switch c width zero_pad is_long (number v ∷ args) =
    if takes_number c
    then Option.map (λ calls. (calls, args)) (printf_number c width zero_pad is_long v)
    else if c == b's'
    then none
    else some (printf_other c, number v ∷ args)
printf_switch c width zero_pad is_long (string s ∷ args) =
    if takes_number c
    then none
    else if c == b's'
    then Option.map (λ calls. (calls, args))
        (puts (elim s [ none ↦ null_text ++ 0 ∷ [] | some t ↦ t ]))
    else some (printf_other c, string s ∷ args)

-- One byte of the format at a time.
unfoldable pub printf_while : Mode → List ℕ → List Arg → Option (List Call)
unfolding printf_switch
printf_while mode [] args = none
printf_while plain (c ∷ fmt) args =
    let after = printf_while flags fmt args in
    let next = printf_while plain fmt args in
    if c == 0
    then some []
    else if c == b'%'
    then after
    else Option.map (λ calls. putc c ++ calls) next
printf_while flags (c ∷ fmt) args =
    let zero_next = printf_while (field true 0) fmt args in
    let digit_next = printf_while (field false (c - 48)) fmt args in
    let long_next = printf_while (one_l false 0) fmt args in
    if c == b'0'
    then zero_next
    else if is_digit c
    then digit_next
    else if c == b'l'
    then long_next
    else printf_switch c 0 false false args >>= λ (calls, args').
        Option.map (λ rest. calls ++ rest) (printf_while plain fmt args')
printf_while (field zero_pad width) (c ∷ fmt) args =
    let digit_next = printf_while (field zero_pad (width * 10 + (c - 48))) fmt args in
    let long_next = printf_while (one_l zero_pad width) fmt args in
    if is_digit c
    then digit_next
    else if c == b'l'
    then long_next
    else printf_switch c width zero_pad false args >>= λ (calls, args').
        Option.map (λ rest. calls ++ rest) (printf_while plain fmt args')
printf_while (one_l zero_pad width) (c ∷ fmt) args =
    let long_next = printf_while (two_l zero_pad width) fmt args in
    if c == b'l'
    then long_next
    else printf_switch c width zero_pad true args >>= λ (calls, args').
        Option.map (λ rest. calls ++ rest) (printf_while plain fmt args')
printf_while (two_l zero_pad width) (c ∷ fmt) args =
    printf_switch c width zero_pad true args >>= λ (calls, args').
    Option.map (λ rest. calls ++ rest) (printf_while plain fmt args')

unfoldable pub printf : List ℕ → List Arg → Option (List Call)
unfolding printf_while
printf fmt args = printf_while plain fmt args
