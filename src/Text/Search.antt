-- ===== src/Text/Search.antt =====
-- kernel/string.c: `strstr` and `strchr` at terminated strings.
use mathlib.Core.Option
use riscv_os.Prelude.{
  ℕ, suc, ◌≤◌, ◌≡◌, refl, ap, ◌∙◌, ◌≢◌, Bool, true, false, ◌&&◌, Option, none, some, List, [], ◌∷◌,
  ◌++◌, ◌==◌, if◌then◌else◌, arith, length, Bool-cases, inl, inr, ==→eq, ne→==_false, ==_refl,
}
use riscv_os.Text.{matches, strstr_loop, strstr}
use riscv_os.Text.Compare.{IsText}

-- The needle stands at the front.
unfoldable pub starts : List ℕ → List ℕ → Bool
starts xs [] = true
starts [] (n ∷ ns) = false
starts (x ∷ xs) (n ∷ ns) = x == n && starts xs ns

pub matches-starts :
    (xs ns r q : List ℕ)
    → IsText xs
    → IsText ns
    → matches (xs ++ 0 ∷ r) (ns ++ 0 ∷ q) ≡ some (starts xs ns)
unfolding matches starts
matches-starts [] [] r q tx tn = refl
matches-starts [] (n ∷ ns) r q tx tn = rw (ne→==_false n 0 tn.0)
matches-starts (x ∷ xs) [] r q tx tn = rw (ne→==_false x 0 tx.0)
matches-starts (x ∷ xs) (n ∷ ns) r q tx tn =
    rw (ne→==_false x 0 tx.0, ne→==_false n 0 tn.0)
      (elim (Bool-cases (x == n)) [
        | inl e ↦ rw e (matches-starts xs ns r q tx.1 tn.1)
        | inr e ↦ rw e
      ])

and_true : (a b : Bool) → (a && b) ≡ true → (a ≡ true) × (b ≡ true)
and_true true b h = (refl, h)
and_true false b h = cc

starts-append : (xs ns : List ℕ) → starts xs ns ≡ true → (high : List ℕ) × (xs ≡ ns ++ high)
unfolding starts
starts-append xs [] h = (xs, refl)
starts-append [] (n ∷ ns) h = cc
starts-append (x ∷ xs) (n ∷ ns) h =
    let (e, h') = and_true (x == n) (starts xs ns) h in
    let (high, eh) = starts-append xs ns h' in
    (high, ap (λ l. x ∷ l) eh ∙ ap (λ a. a ∷ (ns ++ high)) (==→eq x n e))

starts_self : (ns high : List ℕ) → starts (ns ++ high) ns ≡ true
unfolding starts
starts_self [] high = refl
starts_self (n ∷ ns) high = rw (==_refl n, starts_self ns high)

-- The outcome of a search for `ns` in `xs`: the first place where it stands, or none at all.
abbrev pub Finds : List ℕ → List ℕ → Option ℕ → Type 0
Finds xs ns none = (low high : List ℕ) → xs ≢ low ++ (ns ++ high)
Finds xs ns (some k) =
    (low high : List ℕ) × (xs ≡ low ++ (ns ++ high))
    × (length low ≡ k)
    × ((low' high' : List ℕ) → xs ≡ low' ++ (ns ++ high') → k ≤ length low')

-- The first place, by recursion.
find_text : List ℕ → List ℕ → Option ℕ
find_text [] ns = none
find_text (x ∷ xs) ns = if starts (x ∷ xs) ns then some 0 else Option.map suc (find_text xs ns)

cons-tail : (x y : ℕ) {xs ys : List ℕ} → x ∷ xs ≡ y ∷ ys → xs ≡ ys
cons-tail x y e = cc

length_zero : (l : List ℕ) → 0 ≤ length l
length_zero l = omega arith

Finds-cons_none :
    (x : ℕ) (xs ns : List ℕ)
    → starts (x ∷ xs) ns ≡ false
    → Finds xs ns none
    → Finds (x ∷ xs) ns none
Finds-cons_none x xs ns miss f [] high e = cc (starts_self ns high, ap (λ l. starts l ns) e)
Finds-cons_none x xs ns miss f (l ∷ low) high e = f low high (cons-tail x l e)

Finds-cons_some :
    (x : ℕ) (xs ns : List ℕ) (k : ℕ)
    → starts (x ∷ xs) ns ≡ false
    → Finds xs ns (some k)
    → Finds (x ∷ xs) ns (some (suc k))
Finds-cons_some x xs ns k miss (low, high, e, el, first) =
    (x ∷ low, high, ap (λ l. x ∷ l) e, omega arith, later)
  where
    later : (low' high' : List ℕ) → x ∷ xs ≡ low' ++ (ns ++ high') → suc k ≤ length low'
    later [] high' e' = cc (starts_self ns high', ap (λ l. starts l ns) e')
    later (l ∷ low') high' e' = omega (arith, first low' high' (cons-tail x l e'))

Finds-cons :
    (x : ℕ) (xs ns : List ℕ)
    → starts (x ∷ xs) ns ≡ false
    → (o : Option ℕ) → Finds xs ns o
    → Finds (x ∷ xs) ns (Option.map suc o)
Finds-cons x xs ns miss none f = Finds-cons_none x xs ns miss f
Finds-cons x xs ns miss (some k) f = Finds-cons_some x xs ns k miss f

Finds-nil : (n : ℕ) (ns : List ℕ) → Finds [] (n ∷ ns) none
Finds-nil n ns [] high e = cc
Finds-nil n ns (l ∷ low) high e = cc

find_text-Finds : (xs : List ℕ) (n : ℕ) (ns : List ℕ) → Finds xs (n ∷ ns) (find_text xs (n ∷ ns))
unfolding find_text
find_text-Finds [] n ns = Finds-nil n ns
find_text-Finds (x ∷ xs) n ns = elim (Bool-cases (starts (x ∷ xs) (n ∷ ns))) [
  | inl e ↦
      let (high, eh) = starts-append (x ∷ xs) (n ∷ ns) e in
      rw e ([], high, eh, refl, λ low' high' e'. length_zero low')
  | inr e ↦ rw e (Finds-cons x xs (n ∷ ns) e (find_text xs (n ∷ ns)) (find_text-Finds xs n ns))
]

strstr_loop-find_text :
    (xs ns r q : List ℕ)
    → IsText xs
    → IsText ns
    → strstr_loop (xs ++ 0 ∷ r) (ns ++ 0 ∷ q) ≡ some (find_text xs ns)
unfolding strstr_loop find_text
strstr_loop-find_text [] ns r q tx tn = refl
strstr_loop-find_text (x ∷ xs) ns r q tx tn =
    rw (ne→==_false x 0 tx.0, matches-starts (x ∷ xs) ns r q tx tn)
      (elim (Bool-cases (starts (x ∷ xs) ns)) [
        | inl e ↦ rw e
        | inr e ↦ rw (e, strstr_loop-find_text xs ns r q tx.1 tn)
      ])

-- `strstr` of terminated strings, with a needle that is not empty, ends inside both and returns the
-- first place where the needle stands, or null if it stands nowhere.
pub strstr-Finds :
    (xs : List ℕ) (n : ℕ) (ns r q : List ℕ)
    → IsText xs
    → IsText (n ∷ ns)
    → (o : Option ℕ) × (strstr (xs ++ 0 ∷ r) ((n ∷ ns) ++ 0 ∷ q) ≡ some o) × Finds xs (n ∷ ns) o
unfolding strstr
strstr-Finds xs n ns r q tx tn = (
  find_text xs (n ∷ ns),
  rw (ne→==_false n 0 tn.0) (strstr_loop-find_text xs (n ∷ ns) r q tx tn),
  find_text-Finds xs n ns,
)
