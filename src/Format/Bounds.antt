-- ===== src/Format/Bounds.antt =====
-- kernel/common.c: `kvnprintf` stays in its buffer, and the digits of a number stand for it.
use mathlib.Core.Option
use riscv_os.Prelude.{
  u64, ℕ, zero, suc, ◌+◌, ◌-◌, ◌*◌, ◌/◌, ◌%◌, ◌^◌, ◌≤◌, ◌<◌, ◌≡◌, ap, subst, ◌∙◌, Bool, true, false,
  not, ◌&&◌, ◌||◌, Option, none, some, List, [], ◌∷◌, ◌++◌, ltb, ◌==◌, if◌then◌else◌, ◌>>=◌, length,
  get_or, take, arith, Bool-cases, inl, inr, length-append, ==→eq,
}
use riscv_os.Uart.{Arg, number, string}
use riscv_os.Uart.Digits.{decimal, limit}
use riscv_os.Format.{
  digits, itoa_loop, itoa_unsigned, take_text, take_some, number_text, with_rest, expand,
  format_loop, kvnprintf,
}

-- A result of at most `room` bytes, if there is one.
abbrev pub AtMost : ℕ → Option (List ℕ) → Type 0
AtMost room none = Unit {0}
AtMost room (some s) = length s ≤ room

abbrev pub Fits : ℕ → Option (List ℕ × List Arg) → Type 0
Fits room none = Unit {0}
Fits room (some (s, args)) = length s ≤ room

AtMost-if :
    (room : ℕ) (b : Bool) (x y : Option (List ℕ))
    → AtMost room x
    → AtMost room y
    → AtMost room (if b then x else y)
AtMost-if room true x y hx hy = hx
AtMost-if room false x y hx hy = hy

Fits-if :
    (room : ℕ) (b : Bool) (x y : Option (List ℕ × List Arg))
    → Fits room x
    → Fits room y
    → Fits room (if b then x else y)
Fits-if room true x y hx hy = hx
Fits-if room false x y hx hy = hy

pub length-take_le : (n : ℕ) (xs : List ℕ) → length (take n xs) ≤ n
length-take_le zero xs = omega arith
length-take_le (suc n) [] = omega arith
length-take_le (suc n) (x ∷ xs) = omega (arith, length-take_le n xs)

AtMost-cons :
    (room c : ℕ) (o : Option (List ℕ))
    → 1 ≤ room
    → AtMost (room - 1) o
    → AtMost room (Option.map (λ out. c ∷ out) o)
AtMost-cons room c none h a = tt
AtMost-cons room c (some s) h a = omega arith

AtMost-take_text : (s : List ℕ) (room : ℕ) → AtMost room (take_text room s)
unfolding take_text
AtMost-take_text [] room = tt
AtMost-take_text (c ∷ s) room = elim (Bool-cases (c == 0 || room == 0)) [
  | inl e ↦ rw e (omega arith)
  | inr e ↦
      rw e
        (AtMost-cons room c (take_text (room - 1) s) (ground arith) (AtMost-take_text s (room - 1)))
]

AtMost-take_some : (room : ℕ) (o : Option (List ℕ)) → AtMost room (take_some room o)
AtMost-take_some room none = tt
AtMost-take_some room (some s) = length-take_le room s

AtMost-number_text : (spec room v : ℕ) → AtMost room (number_text spec room v)
unfolding number_text
AtMost-number_text spec room v = search (AtMost-if, AtMost-take_some, length-take_le)

Fits-with_rest :
    (room : ℕ) (args : List Arg) (o : Option (List ℕ))
    → AtMost room o
    → Fits room (with_rest args o)
Fits-with_rest room args none a = tt
Fits-with_rest room args (some s) a = a

Fits-expand : (spec room : ℕ) (args : List Arg) → Fits room (expand spec room args)
unfolding expand
Fits-expand spec room [] = search (Fits-if, length-take_le, tt)
Fits-expand spec room (number v ∷ args) =
    search (Fits-if, Fits-with_rest, AtMost-number_text, length-take_le, tt)
Fits-expand spec room (string none ∷ args) =
    let nothing : Fits room (some ([], args)) = omega arith in
    search (Fits-if, nothing, length-take_le, tt)
Fits-expand spec room (string (some s) ∷ args) =
    search (Fits-if, Fits-with_rest, AtMost-take_text, length-take_le, tt)

AtMost-append :
    (room : ℕ) (s : List ℕ) (o : Option (List ℕ))
    → length s ≤ room
    → AtMost (room - length s) o
    → AtMost room (Option.map (λ rest. s ++ rest) o)
AtMost-append room s none h a = tt
AtMost-append room s (some t) h a = omega (arith, length-append s t)

Fits-bind :
    (room : ℕ) (o : Option (List ℕ × List Arg)) (f : List ℕ → List Arg → Option (List ℕ))
    → Fits room o
    → ((s : List ℕ) (args : List Arg) → length s ≤ room → AtMost (room - length s) (f s args))
    → AtMost room (o >>= λ (s, args). Option.map (λ rest. s ++ rest) (f s args))
Fits-bind room none f h g = tt
Fits-bind room (some (s, args)) f h g = AtMost-append room s (f s args) h (g s args h)

AtMost-format_loop :
    (top i : ℕ) (fmt : List ℕ) (args : List Arg) → AtMost (top - i) (format_loop top i fmt args)
unfolding format_loop
AtMost-format_loop top i [] args = tt
AtMost-format_loop top i (c ∷ []) args =
    AtMost-if (top - i) (c == 0 || not (ltb i top)) (some []) none (omega arith) tt
AtMost-format_loop top i (c ∷ d ∷ fmt) args = elim (Bool-cases (c == 0 || not (ltb i top))) [
  | inl e ↦ rw e (omega arith)
  | inr e ↦ rw e (
      AtMost-if (top - i) (c == b'%' && not (d == 0)) _ _
        (Fits-bind (top - i) (expand d (top - i) args)
          (λ s args'. format_loop top (i + length s) fmt args') (Fits-expand d (top - i) args)
          (λ s args' h.
            subst (λ n. AtMost n (format_loop top (i + length s) fmt args'))
              (minus_add top i (length s)) (AtMost-format_loop top (i + length s) fmt args')))
        (AtMost-cons (top - i) c (format_loop top (i + 1) (d ∷ fmt) args) (ground arith) (
          subst (λ n. AtMost n (format_loop top (i + 1) (d ∷ fmt) args)) (minus_add top i 1)
            (AtMost-format_loop top (i + 1) (d ∷ fmt) args))))
]
  where
    minus_add : (a b n : ℕ) → a - (b + n) ≡ a - b - n
    minus_add a b n = omega arith

AtMost-end :
    (n : ℕ) (o : Option (List ℕ))
    → AtMost n o
    → AtMost (n + 1) (Option.map (λ out. out ++ (0 ∷ [])) o)
AtMost-end n none a = tt
AtMost-end n (some s) a = omega (arith, length-append s (0 ∷ []))

-- `kvnprintf` into a buffer of at least one and less than 2^64 bytes: whatever the format and its
-- arguments are, it writes at most as many bytes as the buffer has, the terminator among them.
pub kvnprintf-AtMost :
    (size : ℕ) (fmt : List ℕ) (args : List Arg)
    → 0 < size
    → size < 2 ^ 64
    → AtMost size (kvnprintf size fmt args)
unfolding kvnprintf
kvnprintf-AtMost size fmt args pos small =
    let e : u64 (size + (2 ^ 64 - 1)) - 0 + 1 ≡ size = omega arith in
    subst
      (λ n.
        AtMost n (
          Option.map (λ out. out ++ (0 ∷ [])) (format_loop (u64 (size + (2 ^ 64 - 1))) 0 fmt args)))
      e (AtMost-end _ _ (AtMost-format_loop (u64 (size + (2 ^ 64 - 1))) 0 fmt args))

get_digit : (d : ℕ) → d < 10 → get_or digits d 0 ≡ 48 + d
get_digit d h = ground arith

last_digit : (v : ℕ) → v / 10 ≡ 0 → 10 * 0 + (get_or digits (v % 10) 0 - 48) ≡ v
last_digit v h = omega (arith, get_digit (v % 10) (omega arith))

next_digit : (v : ℕ) → 10 * (v / 10) + (get_or digits (v % 10) 0 - 48) ≡ v
next_digit v = omega (arith, get_digit (v % 10) (omega arith))

decimal-itoa_loop :
    (n v : ℕ) (acc : List ℕ)
    → v < limit n
    → 0 < n
    → (s : List ℕ) × (itoa_loop 10 n v acc ≡ some s) × (decimal 0 s ≡ decimal v acc)
unfolding itoa_loop limit decimal
decimal-itoa_loop zero v acc h pos = absurd (omega arith)
decimal-itoa_loop (suc zero) v acc h pos =
    let small : v / 10 ≡ 0 = omega arith in
    let test : (v / 10 == 0) ≡ true = ground arith in
    (get_or digits (v % 10) 0 ∷ acc, rw test, ap (λ a. decimal a acc) (last_digit v small))
decimal-itoa_loop (suc (suc n)) v acc h pos = elim (Bool-cases (v / 10 == 0)) [
  | inl e ↦ (
    get_or digits (v % 10) 0 ∷ acc,
    rw e,
    ap (λ a. decimal a acc) (last_digit v (==→eq (v / 10) 0 e)),
  )
  | inr e ↦
      let (s, es, ed) =
        decimal-itoa_loop (suc n) (v / 10) (get_or digits (v % 10) 0 ∷ acc) (omega arith)
          (omega arith) in
      (s, rw e es, ed ∙ ap (λ a. decimal a acc) (next_digit v))
]

limit-33 : 2 ^ 32 ≤ limit 33
unfolding limit
limit-33 = omega arith

-- For every `unsigned int` `itoa_unsigned` in base 10 stays in its buffer and ends with digits that
-- stand for that number.
pub itoa_unsigned-decimal :
    (v : ℕ) → v < 2 ^ 32 → (s : List ℕ) × (itoa_unsigned v 10 ≡ some s) × (decimal 0 s ≡ v)
unfolding itoa_unsigned decimal
itoa_unsigned-decimal v h = decimal-itoa_loop 33 v [] (omega (arith, limit-33)) (omega arith)
