-- ===== src/Uart/Digits.antt =====
-- kernel/uart.c: the digits that are written stand for the number.
use riscv_os.Prelude.{
  ℕ, zero, suc, ◌+◌, ◌-◌, ◌*◌, ◌/◌, ◌%◌, ◌^◌, ◌≤◌, ◌<◌, ◌≡◌, refl, ap, sym, ◌∙◌, Bool, false, List,
  [], ◌∷◌, ◌++◌, ltb, ◌==◌, if◌then◌else◌, arith, length, Bool-cases, inl, inr, ==→eq,
  length-append, length-replicate, replicate,
}
use riscv_os.Uart.{digit_char, digit_loop, uart_put_udec, pad_digits, uart_putpad}

-- The number that decimal digits stand for, behind the digits of `a`.
unfoldable pub decimal : ℕ → List ℕ → ℕ
decimal a [] = a
decimal a (c ∷ cs) = decimal (10 * a + (c - 48)) cs

-- The numbers of `n` decimal digits lie below it.
unfoldable pub limit : ℕ → ℕ
limit zero = 1
limit (suc n) = 10 * limit n

digit_char-sub : (v : ℕ) → 10 * (v / 10) + (digit_char (v % 10) - 48) ≡ v
digit_char-sub v = ground arith

decimal-digit_loop :
    (n v : ℕ) (acc : List ℕ) → v < limit n → decimal 0 (digit_loop 10 n v acc) ≡ decimal v acc
unfolding digit_loop limit decimal
decimal-digit_loop zero v acc h = ap (λ a. decimal a acc) (omega arith)
decimal-digit_loop (suc n) v acc h = elim (Bool-cases (v == 0)) [
  | inl e ↦ rw e (ap (λ a. decimal a acc) (sym (==→eq v 0 e)))
  | inr e ↦ rw e (
      decimal-digit_loop n (v / 10) (digit_char (v % 10) ∷ acc) (omega arith)
      ∙ ap (λ a. decimal a acc) (digit_char-sub v))
]

limit-20 : 2 ^ 64 ≤ limit 20
unfolding limit
limit-20 = omega arith

uart_put_udec-if : (v : ℕ) → uart_put_udec v ≡ (if v == 0 then b'0' ∷ [] else digit_loop 10 20 v [])
unfolding uart_put_udec
uart_put_udec-if v = refl

decimal-digits :
    (v : ℕ) → v < 2 ^ 64 → decimal 0 (if v == 0 then b'0' ∷ [] else digit_loop 10 20 v []) ≡ v
unfolding decimal
decimal-digits v h = elim (Bool-cases (v == 0)) [
  | inl e ↦ rw e (sym (==→eq v 0 e))
  | inr e ↦ rw e (decimal-digit_loop 20 v [] (omega (arith, limit-20)))
]

-- For every 64-bit number the digits that `uart_put_udec` writes stand for that number: its buffer
-- of 21 bytes is long enough.
decimal-uart_put_udec : (v : ℕ) → v < 2 ^ 64 → decimal 0 (uart_put_udec v) ≡ v
decimal-uart_put_udec v h = ap (decimal 0) (uart_put_udec-if v) ∙ decimal-digits v h

unfoldable pub put_digits : ℕ → List ℕ
put_digits val = if val == 0 then b'0' ∷ [] else digit_loop 10 31 val []

abbrev pub max_ℕ : ℕ → ℕ → ℕ
max_ℕ a b = if ltb a b then b else a

uart_putpad-put_digits :
    (val width : ℕ) (zero_pad : Bool)
    → uart_putpad val 10 width zero_pad false
      ≡ replicate (width - (length (put_digits val) + 1)) (if zero_pad then b'0' else b' ')
        ++ put_digits val
unfolding uart_putpad pad_digits put_digits
uart_putpad-put_digits val width zero_pad = refl

padding : (n width : ℕ) → width - (n + 1) + n ≡ max_ℕ n (width - 1)
padding n width = ground arith

-- `uart_putpad` of an unsigned decimal number in a field of some width writes one byte less than
-- the width where the digits leave room for it, and no byte more than the digits otherwise.
length-uart_putpad :
    (val width : ℕ) (zero_pad : Bool)
    → length (uart_putpad val 10 width zero_pad false) ≡ max_ℕ (length (put_digits val)) (width - 1)
length-uart_putpad val width zero_pad =
    ap length (uart_putpad-put_digits val width zero_pad)
    ∙ length-append (replicate (width - (length (put_digits val) + 1)) _) (put_digits val)
    ∙ ap (λ n. n + length (put_digits val)) (length-replicate _ _)
    ∙ padding (length (put_digits val)) width
