-- ===== src/Printf/Switch.antt =====
-- user/lib/printf.c and kernel/uart.c: the calls of a conversion say what the kernel's conversion
-- writes.
use mathlib.Core.Option
use riscv_os.Prelude.{
  ℕ, zero, suc, ◌/◌, ◌%◌, ◌^◌, ◌<◌, ◌≡◌, ◌≢◌, refl, ap, subst, ◌∙◌, Bool, true, false, ◌&&◌, ◌||◌,
  Option, none, some, List, [], ◌∷◌, ◌++◌, ◌==◌, ne→==_false, if◌then◌else◌, ◌>>=◌, arith,
  replicate, Bool-cases, inl, inr,
}
use riscv_os.Text.{strlen}
use riscv_os.Text.Compare.{IsText}
use riscv_os.Uart.{
  uart_puts, hex_prefix, digit_char, digit_loop, is_negative, negate, uart_puthex, pad_digits,
  uart_putpad, Arg, number, string, sign_extend, put_number, takes_number, null_text, convert,
}
use riscv_os.Printf.{
  Call, putc, puts, put_fill, puthex, putpad_digits, putpad, printf_number, printf_other,
  printf_switch,
}
use riscv_os.Printf.Says.{
  Says, says, SaysFirst, says_first, if-Says, if-SaysFirst, append-Says, pair-SaysFirst, puts-Says,
  said_all-put_fill,
}
use riscv_os.Printf.Calls.{said_all}

digit_char-ne : (d : ℕ) → digit_char d ≢ 0
digit_char-ne d = ground arith

digit_loop-IsText : (base i v : ℕ) (acc : List ℕ) → IsText acc → IsText (digit_loop base i v acc)
unfolding digit_loop
digit_loop-IsText base zero v acc h = h
digit_loop-IsText base (suc i) v acc h = elim (Bool-cases (v == 0)) [
  | inl e ↦ rw e h
  | inr e ↦ rw e (
      digit_loop-IsText base i (v / base) (digit_char (v % base) ∷ acc)
        (digit_char-ne (v % base), h))
]

digits-IsText : (base n v : ℕ) → IsText (if v == 0 then b'0' ∷ [] else digit_loop base n v [])
digits-IsText base n v = elim (Bool-cases (v == 0)) [
  | inl e ↦ rw e (ground arith, _)
  | inr e ↦ rw e (digit_loop-IsText base n v [] _)
]

uart_puts-IsText : (s : List ℕ) → IsText s → uart_puts (s ++ 0 ∷ []) ≡ some s
unfolding uart_puts
uart_puts-IsText [] h = refl
uart_puts-IsText (c ∷ s) h = rw (ne→==_false c 0 h.0, uart_puts-IsText s h.1) refl

-- A string behind some padding
fill-Says :
    (n ch : ℕ) (s : List ℕ)
    → ch < 256
    → IsText s
    → Says
        (Option.map (λ calls. put_fill n ch ++ calls) (puts (s ++ 0 ∷ [])))
        (some (replicate n ch ++ s))
fill-Says n ch s h t =
    subst (λ p. Says (Option.map (λ calls. put_fill n ch ++ calls) (puts (s ++ 0 ∷ []))) p)
      (ap (Option.map (λ rest. said_all (put_fill n ch) ++ rest)) (uart_puts-IsText s t)
        ∙ ap (λ f. some (f ++ s)) (said_all-put_fill n ch h))
      (append-Says (put_fill n ch) (puts (s ++ 0 ∷ [])) (puts-Says (s ++ 0 ∷ [])))

puthex-Says : (value width : ℕ) → Says (puthex value width) (some (uart_puthex value width))
unfolding puthex uart_puthex
puthex-Says value width =
    fill-Says _ b'0' (if value == 0 then b'0' ∷ [] else digit_loop 16 16 value []) (omega arith)
      (digits-IsText 16 16 value)

fill_char : (zero_pad : Bool) → (if zero_pad then b'0' else b' ') < 256
fill_char true = omega arith
fill_char false = omega arith

putpad_digits-Says :
    (val base width : ℕ) (zero_pad : Bool)
    → Says (putpad_digits val base width zero_pad) (some (pad_digits val base width zero_pad))
unfolding putpad_digits pad_digits
putpad_digits-Says val base width zero_pad =
    fill-Says _ (if zero_pad then b'0' else b' ')
      (if val == 0 then b'0' ∷ [] else digit_loop base 31 val []) (fill_char zero_pad)
      (digits-IsText base 31 val)

if-some :
    {A : Type 0} (b : Bool) (x y : A) → (if b then some x else some y) ≡ some (if b then x else y)
if-some true x y = refl
if-some false x y = refl

putpad-Says :
    (val base width : ℕ) (zero_pad signed_val : Bool)
    → Says
        (putpad val base width zero_pad signed_val)
        (some (uart_putpad val base width zero_pad signed_val))
unfolding putpad uart_putpad putc
putpad-Says val base width zero_pad signed_val =
    subst (Says (putpad val base width zero_pad signed_val))
      (if-some (signed_val && is_negative val) _ _)
      (if-Says (signed_val && is_negative val)
        (append-Says (putc b'-') (putpad_digits (negate val) base width zero_pad)
          (putpad_digits-Says (negate val) base width zero_pad))
        (putpad_digits-Says val base width zero_pad))

if-SaysSome :
    (b : Bool) {x y : Option (List Call)} {p q : List ℕ}
    → Says x (some p)
    → Says y (some q)
    → Says (if b then x else y) (some (if b then p else q))
if-SaysSome true h i = h
if-SaysSome false h i = i

putc-Says : (v : ℕ) → Says (some (putc v)) (some (v % 256 ∷ []))
unfolding putc
putc-Says v = let e : v % 256 % 256 ≡ v % 256 = omega arith in says (ap (λ c. some (c ∷ [])) e)

prefix-Says :
    (v : ℕ)
    → Says
        (puts (hex_prefix ++ 0 ∷ []) >>= λ calls. Option.map (λ rest. calls ++ rest) (puthex v 16))
        (some (hex_prefix ++ uart_puthex v 16))
unfolding puts strlen
prefix-Says v =
    append-Says (Call.write 1 (hex_prefix ++ 0 ∷ []) 2 ∷ []) (puthex v 16) (puthex-Says v 16)

printf_number-Says :
    (c width : ℕ) (zero_pad is_long : Bool) (v : ℕ)
    → Says (printf_number c width zero_pad is_long v) (some (put_number c width zero_pad is_long v))
unfolding printf_number put_number
printf_number-Says c width zero_pad is_long v =
    if-SaysSome (c == b'd')
      (putpad-Says (if is_long then v else sign_extend v) 10 width zero_pad true)
      (if-SaysSome (c == b'u')
        (putpad-Says (if is_long then v else v % 2 ^ 32) 10 width zero_pad false)
        (if-SaysSome (c == b'x') (puthex-Says (if is_long then v else v % 2 ^ 32) width)
          (if-SaysSome (c == b'p') (prefix-Says v) (putc-Says v))))

-- The case of `%` and the default
printf_other-SaysFirst :
    (c : ℕ) (args : List Arg)
    → c < 256
    → SaysFirst
        (some (printf_other c, args))
        (if c == b'%' then some (b'%' ∷ [], args) else some (b'%' ∷ c ∷ [], args))
unfolding putc
printf_other-SaysFirst c args h =
    let e : c % 256 % 256 ≡ c = omega arith in
    elim (Bool-cases (c == b'%')) [
      | inl t ↦ rw t (says_first refl)
      | inr t ↦ rw t (says_first (ap (λ d. some (b'%' ∷ d ∷ [], args)) e))
    ]

text-SaysFirst :
    (s : Option (List ℕ)) (args : List Arg)
    → SaysFirst
        (Option.map
          (λ calls. (calls, args))
          (puts (elim s [ none ↦ null_text ++ 0 ∷ [] | some t ↦ t ])))
        (elim s [
          | none ↦ some (null_text, args)
          | some t ↦ Option.map (λ out. (out, args)) (uart_puts t)
        ])
unfolding puts strlen
text-SaysFirst none args = says_first refl
text-SaysFirst (some t) args = pair-SaysFirst args (puts t) (puts-Says t)

pub printf_switch-SaysFirst :
    (c width : ℕ) (zero_pad is_long : Bool) (args : List Arg)
    → c < 256
    → SaysFirst
        (printf_switch c width zero_pad is_long args)
        (convert c width zero_pad is_long args)
unfolding printf_switch convert
printf_switch-SaysFirst c width zero_pad is_long [] h =
    if-SaysFirst (takes_number c || c == b's') (says_first refl) (printf_other-SaysFirst c [] h)
printf_switch-SaysFirst c width zero_pad is_long (number v ∷ args) h =
    if-SaysFirst (takes_number c)
      (pair-SaysFirst args (printf_number c width zero_pad is_long v)
        (printf_number-Says c width zero_pad is_long v))
      (if-SaysFirst (c == b's') (says_first refl) (printf_other-SaysFirst c (number v ∷ args) h))
printf_switch-SaysFirst c width zero_pad is_long (string s ∷ args) h =
    if-SaysFirst (takes_number c) (says_first refl) (
      if-SaysFirst (c == b's') (text-SaysFirst s args)
        (printf_other-SaysFirst c (string s ∷ args) h))
