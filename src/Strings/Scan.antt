-- ===== src/Strings/Scan.antt =====
-- user/lib/string.c: the loops of `strtok` in the memory go as far as those of Text on the list of
-- the text's bytes.
use mathlib.Core.Option
use riscv_os.Prelude.{
  ℕ, zero, suc, ◌+◌, ◌≤◌, ◌≡◌, refl, subst, ◌∙◌, inl, inr, Bool, true, false, Option, none, some,
  List, [], ◌∷◌, ◌==◌, if◌then◌else◌, ◌>>=◌, arith, length, Bool-cases,
}
use riscv_os.Text
use riscv_os.Text.Token
use riscv_os.Text.Token.{is_delim}
use riscv_os.Strings.{Bytes, strchr, not_null, skip_delims, token_end}
use riscv_os.Strings.Held.{Held}

-- Where the first computation has a result, the second one has a related result.
pub data Sim {A B : Type 0} (R : A → B → Type 0) : Option A → Option B → Type 0 where
  undefined : {p : Option B} → Sim R none p
  related : {a : A} {b : B} → R a b → Sim R (some a) (some b)

pub Sim-bind :
    {A B C D : Type 0} {R : A → B → Type 0} {Q : C → D → Type 0} {o : Option A} {p : Option B}
    {f : A → Option C} {g : B → Option D}
    → Sim R o p
    → ((a : A) (b : B) → R a b → Sim Q (f a) (g b))
    → Sim Q (o >>= f) (p >>= g)
Sim-bind undefined h = undefined
Sim-bind (related {a = a} {b = b} r) h = h a b r

pub Sim-some :
    {A B : Type 0} {R : A → B → Type 0} (o : Option A) (p : Option B) (a : A)
    → Sim R o p
    → o ≡ some a
    → (b : B) × (p ≡ some b) × R a b
Sim-some none p a undefined e = absurd (ground (arith, e))
Sim-some (some a') none a s e = elim s [ ]
Sim-some {R = R} (some a') (some b) a (related r) e =
    let ea : a' ≡ a = cc in (b, refl, subst (λ c. R c b) ea r)

abbrev Tells : Bool → Option ℕ → Type 0
Tells b p = not_null p ≡ b

pick-Sim :
    {R : ℕ → ℕ → Type 0} {o : Option Bool} {q : Option (Option ℕ)} {x y x' y' : Option ℕ}
    → Sim Tells o q
    → Sim R x x'
    → Sim R y y'
    → Sim R
        (elim o [ none ↦ none | some true ↦ x | some false ↦ y ])
        (q >>= λ p. if not_null p then x' else y')
pick-Sim undefined hx hy = undefined
pick-Sim (related {a = true} t) hx hy = rw t hx
pick-Sim (related {a = false} t) hx hy = rw t hy

is_delim-if :
    (x : ℕ) (delim : List ℕ) (c : ℕ)
    → is_delim (x ∷ delim) c
      ≡ (if x == 0 then some false else if x == c then some true else is_delim delim c)
unfolding is_delim Text.strchr
is_delim-if x delim c = elim (Bool-cases (x == 0)) [
  | inl e ↦ rw (is_delim, Text.strchr, e) refl
  | inr e ↦ elim (Bool-cases (x == c)) [
    | inl t ↦ rw (is_delim, Text.strchr, e, t) refl
    | inr t ↦ rw (is_delim, Text.strchr, e, t) (tail (Text.strchr delim c))
  ]
]
  where
    tail :
        (o : Option (Option ℕ))
        → (elim (Option.map (Option.map suc) o) [
          | none ↦ none
          | some none ↦ some false
          | some (some i) ↦ some true
        ])
          ≡ (elim o [ none ↦ none | some none ↦ some false | some (some i) ↦ some true ])
    tail none = refl
    tail (some none) = refl
    tail (some (some i)) = refl

strchr-Sim :
    (fuel : ℕ) (m : Bytes) (p c : ℕ) (delim : List ℕ)
    → Held m p delim
    → length delim ≤ fuel
    → Sim Tells (is_delim delim c) (strchr fuel m p c)
unfolding strchr is_delim Text.strchr
strchr-Sim fuel m p c [] h lt = undefined
strchr-Sim zero m p c (x ∷ delim) h lt = absurd (omega arith)
strchr-Sim (suc fuel) m p c (x ∷ delim) (e, h) lt =
    rw (is_delim-if x delim c, e)
      (elim (Bool-cases (x == 0)) [
        | inl t ↦ rw t (related refl)
        | inr t ↦ elim (Bool-cases (x == c)) [
          | inl u ↦ rw (t, u) (related refl)
          | inr u ↦ rw (t, u) (strchr-Sim fuel m (p + 1) c delim h (omega arith))
        ]
      ])

-- A place, counted from an address
abbrev pub From : ℕ → ℕ → ℕ → Type 0
From p n q = q ≡ p + n

suc-Sim : (p : ℕ) {o q : Option ℕ} → Sim (From (p + 1)) o q → Sim (From p) (Option.map suc o) q
suc-Sim p undefined = undefined
suc-Sim p (related e) = related (e ∙ omega arith)

module _ (m : Bytes) (dl : ℕ) (delim : List ℕ) (inner : ℕ) (held : Held m dl delim)
    (enough : length delim ≤ inner) where
  pub skip_delims-Sim :
      (fuel p : ℕ) (s : List ℕ)
      → Held m p s
      → length s ≤ fuel
      → Sim (From p) (Text.Token.skip_delims delim s) (skip_delims fuel inner m dl p)
  unfolding skip_delims Text.Token.skip_delims
  skip_delims-Sim fuel p [] h lt = undefined
  skip_delims-Sim zero p (c ∷ s) h lt = absurd (omega arith)
  skip_delims-Sim (suc fuel) p (c ∷ s) (e, h) lt =
      let here : p ≡ p + 0 = omega arith in
      rw e (elim (Bool-cases (c == 0)) [
        | inl t ↦ rw t (related here)
        | inr t ↦ rw t (
            pick-Sim (strchr-Sim inner m dl c delim held enough)
              (suc-Sim p (skip_delims-Sim fuel (p + 1) s h (omega arith))) (related here))
      ])

  pub token_end-Sim :
      (fuel p : ℕ) (s : List ℕ)
      → Held m p s
      → length s ≤ fuel
      → Sim (From p) (Text.Token.token_end delim s) (token_end fuel inner m dl p)
  unfolding token_end Text.Token.token_end
  token_end-Sim fuel p [] h lt = undefined
  token_end-Sim zero p (c ∷ s) h lt = absurd (omega arith)
  token_end-Sim (suc fuel) p (c ∷ s) (e, h) lt =
      let here : p ≡ p + 0 = omega arith in
      rw e (elim (Bool-cases (c == 0)) [
        | inl t ↦ rw t (related here)
        | inr t ↦ rw t (
            pick-Sim (strchr-Sim inner m dl c delim held enough) (related here)
              (suc-Sim p (token_end-Sim fuel (p + 1) s h (omega arith))))
      ])
