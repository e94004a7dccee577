-- ===== src/Printf/Same.antt =====
-- user/lib/printf.c and kernel/uart.c: a program and the kernel print the same.
use mathlib.Core.Option
use riscv_os.Prelude.{
  ℕ, ◌+◌, ◌-◌, ◌*◌, ◌%◌, ◌<◌, ◌≡◌, refl, ap, sym, subst, ◌∙◌, Bool, true, false, Option, some, List,
  [], ◌∷◌, ◌++◌, ◌==◌, ◌>>=◌, arith,
}
use riscv_os.Process.{Kernel, TrapFrame}
use riscv_os.Traps.{World}
use riscv_os.Uart.{
  Arg, convert, is_digit, Mode, plain, flags, field, one_l, two_l, printf_loop, uart_printf,
}
use riscv_os.Printf.{Call, putc, printf_switch, printf_while, printf}
use riscv_os.Printf.Says.{Says, says, if-Says, append-Says, then-Says}
use riscv_os.Printf.Switch.{printf_switch-SaysFirst}
use riscv_os.Printf.Calls.{perform_all, Fits, said_all, perform_all-said_all}

-- The format consists of bytes.
abbrev pub Bytes : List ℕ → Type 0
Bytes [] = Unit {0}
Bytes (c ∷ s) = (c < 256) × Bytes s

cons-Says :
    (c : ℕ) (o : Option (List Call)) {p : Option (List ℕ)}
    → c < 256
    → Says o p
    → Says (Option.map (λ calls. putc c ++ calls) o) (Option.map (λ out. c ∷ out) p)
unfolding putc
cons-Says c o {p = p} h i =
    let e : c % 256 % 256 ≡ c = omega arith in
    subst (λ d. Says (Option.map (λ calls. putc c ++ calls) o) (Option.map (λ out. d ∷ out) p)) e
      (append-Says (putc c) o i)

-- A conversion, and the rest of the format
rest-Says :
    (c width : ℕ) (zero_pad is_long : Bool) (fmt : List ℕ) (args : List Arg)
    → c < 256
    → ((args : List Arg) → Says (printf_while plain fmt args) (printf_loop plain fmt args))
    → Says
        (printf_switch c width zero_pad is_long args >>= λ (calls, args').
          Option.map (λ rest. calls ++ rest) (printf_while plain fmt args'))
        (convert c width zero_pad is_long args >>= λ (out, args').
          Option.map (λ rest. out ++ rest) (printf_loop plain fmt args'))
rest-Says c width zero_pad is_long fmt args h i =
    then-Says (printf_switch c width zero_pad is_long args) (printf_while plain fmt)
      (printf_loop plain fmt) (printf_switch-SaysFirst c width zero_pad is_long args h) i

printf_while-Says :
    (fmt : List ℕ) (mode : Mode) (args : List Arg)
    → Bytes fmt
    → Says (printf_while mode fmt args) (printf_loop mode fmt args)
unfolding printf_while printf_loop
printf_while-Says [] mode args h = says refl
printf_while-Says (c ∷ fmt) plain args (h, t) = if-Says (c == 0) (says refl) (
    if-Says (c == b'%') (printf_while-Says fmt flags args t)
      (cons-Says c (printf_while plain fmt args) h (printf_while-Says fmt plain args t)))
printf_while-Says (c ∷ fmt) flags args (h, t) =
    if-Says (c == b'0') (printf_while-Says fmt (field true 0) args t) (
      if-Says (is_digit c) (printf_while-Says fmt (field false (c - 48)) args t) (
        if-Says (c == b'l') (printf_while-Says fmt (one_l false 0) args t)
          (rest-Says c 0 false false fmt args h (λ args. printf_while-Says fmt plain args t))))
printf_while-Says (c ∷ fmt) (field zero_pad width) args (h, t) =
    if-Says (is_digit c) (printf_while-Says fmt (field zero_pad (width * 10 + (c - 48))) args t) (
      if-Says (c == b'l') (printf_while-Says fmt (one_l zero_pad width) args t)
        (rest-Says c width zero_pad false fmt args h (λ args. printf_while-Says fmt plain args t)))
printf_while-Says (c ∷ fmt) (one_l zero_pad width) args (h, t) =
    if-Says (c == b'l') (printf_while-Says fmt (two_l zero_pad width) args t)
      (rest-Says c width zero_pad true fmt args h (λ args. printf_while-Says fmt plain args t))
printf_while-Says (c ∷ fmt) (two_l zero_pad width) args (h, t) =
    rest-Says c width zero_pad true fmt args h (λ args. printf_while-Says fmt plain args t)

map-some :
    (calls : List Call) (o : Option (List Call)) (p : Option (List ℕ))
    → o ≡ some calls
    → Says o p
    → some (said_all calls) ≡ p
map-some calls o p e (says h) = ap (Option.map said_all) (sym e) ∙ h

-- For every format of bytes and all arguments: when the kernel handles the system calls that
-- `printf` of the user library makes, one after the other, the console gets exactly the bytes that
-- `uart_printf` of the kernel writes for that format and those arguments, if no string of a
-- `write` reaches over the end of the addresses.
pub printf-uart_printf :
    (w : World) (f : TrapFrame) (k : Kernel) (at : List ℕ → ℕ) (fmt : List ℕ) (args : List Arg)
    (calls : List Call)
    → Bytes fmt
    → printf fmt args ≡ some calls
    → Fits at calls
    → perform_all w f k at calls ≡ uart_printf fmt args
unfolding printf uart_printf
printf-uart_printf w f k at fmt args calls b e h =
    perform_all-said_all w f k at calls h
    ∙ map-some calls (printf_while plain fmt args) (printf_loop plain fmt args) e
        (printf_while-Says fmt plain args b)
