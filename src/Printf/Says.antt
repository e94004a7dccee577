-- ===== src/Printf/Says.antt =====
-- user/lib/printf.c and kernel/uart.c: what it is that calls say the bytes of a function of the kernel.
use mathlib.Core.Option
use riscv_os.Prelude.{
  ℕ, zero, suc, ◌%◌, ◌<◌, ◌≡◌, refl, ap, sym, subst, ◌∙◌, Bool, true, false, Option, none, some,
  List, [], ◌∷◌, ◌++◌, append_assoc, append-nil, ◌==◌, if◌then◌else◌, ◌>>=◌, arith, replicate,
  Bool-cases, inl, inr,
}
use riscv_os.Text.{strlen}
use riscv_os.Uart.{uart_puts, Arg}
use riscv_os.Printf.{Call, puts, put_fill}
use riscv_os.Printf.Calls.{first_bytes, said, said_all}

-- The calls say the bytes.
pub data Says (calls : Option (List Call)) (out : Option (List ℕ)) : Type 0 where
  says : Option.map said_all calls ≡ out → Says calls out

-- The same, with the arguments that are left
abbrev say_first : List Call × List Arg → List ℕ × List Arg
say_first (calls, args) = (said_all calls, args)

pub data SaysFirst (calls : Option (List Call × List Arg)) (out : Option (List ℕ × List Arg))
    : Type 0 where
  says_first : Option.map say_first calls ≡ out → SaysFirst calls out

said_all-append : (cs ds : List Call) → said_all (cs ++ ds) ≡ said_all cs ++ said_all ds
said_all-append [] ds = refl
said_all-append (c ∷ cs) ds =
    rw (said_all-append cs ds) (sym (append_assoc (said c) (said_all cs) (said_all ds)))

pub if-Says :
    (b : Bool) {x y : Option (List Call)} {p q : Option (List ℕ)}
    → Says x p
    → Says y q
    → Says (if b then x else y) (if b then p else q)
if-Says true h i = h
if-Says false h i = i

pub if-SaysFirst :
    (b : Bool) {x y : Option (List Call × List Arg)} {p q : Option (List ℕ × List Arg)}
    → SaysFirst x p
    → SaysFirst y q
    → SaysFirst (if b then x else y) (if b then p else q)
if-SaysFirst true h i = h
if-SaysFirst false h i = i

-- What is said before
pub append-Says :
    (cs : List Call) (o : Option (List Call)) {p : Option (List ℕ)}
    → Says o p
    → Says (Option.map (λ rest. cs ++ rest) o) (Option.map (λ rest. said_all cs ++ rest) p)
append-Says cs none (says h) = says (rw (sym h) refl)
append-Says cs (some ds) (says h) = says (rw (sym h) (ap some (said_all-append cs ds)))

-- The arguments that are left go with it.
pub pair-SaysFirst :
    (args : List Arg) (o : Option (List Call)) {p : Option (List ℕ)}
    → Says o p
    → SaysFirst (Option.map (λ calls. (calls, args)) o) (Option.map (λ out. (out, args)) p)
pair-SaysFirst args none (says h) = says_first (rw (sym h) refl)
pair-SaysFirst args (some cs) (says h) = says_first (rw (sym h) refl)

-- A conversion, and what follows
pub then-Says :
    (o : Option (List Call × List Arg)) {p : Option (List ℕ × List Arg)}
    (f : List Arg → Option (List Call)) (g : List Arg → Option (List ℕ))
    → SaysFirst o p
    → ((args : List Arg) → Says (f args) (g args))
    → Says
        (o >>= λ (calls, args). Option.map (λ rest. calls ++ rest) (f args))
        (p >>= λ (out, args). Option.map (λ rest. out ++ rest) (g args))
then-Says none f g (says_first h) i = says (rw (sym h) refl)
then-Says (some (cs, args)) f g (says_first h) i =
    subst
      (λ p.
        Says (Option.map (λ rest. cs ++ rest) (f args))
          (p >>= λ (out, args). Option.map (λ rest. out ++ rest) (g args)))
      h (append-Says cs (f args) (i args))

map-first_bytes :
    (c : ℕ) (o : Option ℕ) (s : List ℕ)
    → Option.map (λ n. first_bytes n (c ∷ s)) (Option.map suc o)
      ≡ Option.map (λ out. c ∷ out) (Option.map (λ n. first_bytes n s) o)
map-first_bytes c none s = refl
map-first_bytes c (some n) s = refl

first_bytes-strlen : (s : List ℕ) → Option.map (λ n. first_bytes n s) (strlen s) ≡ uart_puts s
unfolding strlen uart_puts
first_bytes-strlen [] = refl
first_bytes-strlen (c ∷ s) = elim (Bool-cases (c == 0)) [
  | inl e ↦ rw e refl
  | inr e ↦
      rw e
        (map-first_bytes c (strlen s) s ∙ ap (Option.map (λ out. c ∷ out)) (first_bytes-strlen s))
]

map-write :
    (s : List ℕ) (o : Option ℕ)
    → Option.map said_all (Option.map (λ n. Call.write 1 s n ∷ []) o)
      ≡ Option.map (λ n. first_bytes n s) o
map-write s none = refl
map-write s (some n) = ap some (append-nil (first_bytes n s))

-- `puts` says what `uart_puts` writes.
pub puts-Says : (s : List ℕ) → Says (puts s) (uart_puts s)
unfolding puts
puts-Says s = says (map-write s (strlen s) ∙ first_bytes-strlen s)

pub said_all-put_fill : (n ch : ℕ) → ch < 256 → said_all (put_fill n ch) ≡ replicate n ch
said_all-put_fill zero ch h = refl
said_all-put_fill (suc n) ch h =
    let e : ch % 256 ≡ ch = omega arith in rw (said_all-put_fill n ch h, e) refl
