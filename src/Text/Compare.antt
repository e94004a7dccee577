-- ===== src/Text/Compare.antt =====
-- kernel/string.c: the functions that read, at terminated strings.
use riscv_os.Prelude.{
  ℕ, zero, suc, ◌≡◌, refl, ◌≢◌, ◌↔◌, ℤ, pos, sub_ℕ, sub_ℕ-eq_zero, Option, none, some, List, [],
  ◌∷◌, ◌++◌, ◌==◌, arith, length, take, Bool-cases, inl, inr, ==→eq, ne→==_false, ==_false→ne,
}
use riscv_os.Text.{strcmp, strncmp, strlen}

-- No byte ends the string.
abbrev pub IsText : List ℕ → Type 0
IsText [] = Unit {0}
IsText (c ∷ s) = (c ≢ 0) × IsText s

-- `strlen` counts the bytes before the terminator.
pub strlen-length : (xs r : List ℕ) → IsText xs → strlen (xs ++ 0 ∷ r) ≡ some (length xs)
unfolding strlen
strlen-length [] r t = refl
strlen-length (x ∷ xs) r t = rw (ne→==_false x 0 t.0, strlen-length xs r t.1)

-- What a comparison says: nothing was read out of bounds, and it is 0 exactly at equal strings.
abbrev pub Decides : Option ℤ → List ℕ → List ℕ → Type 0
Decides none xs ys = ⊥
Decides (some z) xs ys = (z ≡ pos 0) ↔ (xs ≡ ys)

Decides-cons :
    (o : Option ℤ) {x y : ℕ} (xs ys : List ℕ)
    → x ≡ y
    → Decides o xs ys
    → Decides o (x ∷ xs) (y ∷ ys)
Decides-cons none xs ys e d = d
Decides-cons (some z) xs ys e d = (λ h. cc (d.0 h), λ h. d.1 (cc))

Decides-ne : {x y : ℕ} (xs ys : List ℕ) → x ≢ y → Decides (some (sub_ℕ x y)) (x ∷ xs) (y ∷ ys)
Decides-ne {x} {y} xs ys ne = (λ h. absurd (ne ((sub_ℕ-eq_zero x y).0 h)), λ h. absurd (ne (cc)))

-- `strcmp` of two terminated strings is 0 exactly if they are equal, and reads inside both.
pub strcmp-Decides :
    (xs ys r q : List ℕ)
    → IsText xs
    → IsText ys
    → Decides (strcmp (xs ++ 0 ∷ r) (ys ++ 0 ∷ q)) xs ys
unfolding strcmp
strcmp-Decides [] [] r q tx ty = ground arith
strcmp-Decides [] (y ∷ ys) r q tx ty = ground arith
strcmp-Decides (x ∷ xs) [] r q tx ty = ground arith
strcmp-Decides (x ∷ xs) (y ∷ ys) r q tx ty = rw (ne→==_false x 0 tx.0) (elim (Bool-cases (x == y)) [
  | inl e ↦ rw e (
      Decides-cons (strcmp (xs ++ 0 ∷ r) (ys ++ 0 ∷ q)) xs ys (==→eq x y e)
        (strcmp-Decides xs ys r q tx.1 ty.1))
  | inr e ↦ rw e (Decides-ne xs ys (==_false→ne x y e))
])

-- `strncmp` of two terminated strings is 0 exactly if they agree in their first `n` bytes, and
-- reads inside both.
strncmp-Decides :
    (n : ℕ) (xs ys r q : List ℕ)
    → IsText xs
    → IsText ys
    → Decides (strncmp (xs ++ 0 ∷ r) (ys ++ 0 ∷ q) n) (take n xs) (take n ys)
unfolding strncmp
strncmp-Decides zero xs ys r q tx ty = ground arith
strncmp-Decides (suc n) [] [] r q tx ty = ground arith
strncmp-Decides (suc n) [] (y ∷ ys) r q tx ty = ground arith
strncmp-Decides (suc n) (x ∷ xs) [] r q tx ty = ground arith
strncmp-Decides (suc n) (x ∷ xs) (y ∷ ys) r q tx ty =
    rw (ne→==_false x 0 tx.0) (elim (Bool-cases (x == y)) [
      | inl e ↦ rw e (
          Decides-cons (strncmp (xs ++ 0 ∷ r) (ys ++ 0 ∷ q) n) (take n xs) (take n ys) (==→eq x y e)
            (strncmp-Decides n xs ys r q tx.1 ty.1))
      | inr e ↦ rw e (Decides-ne (take n xs) (take n ys) (==_false→ne x y e))
    ])
