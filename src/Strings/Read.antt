-- ===== src/Strings/Read.antt =====
-- user/lib/string.c: the functions that read texts in the memory.
use riscv_os.Prelude.{
  ℕ, zero, suc, ◌+◌, ◌<◌, ◌≡◌, refl, ap, ◌∙◌, true, false, some, List, [], ◌∷◌, ◌++◌, ◌==◌, ==_refl,
  ne→==_false, arith, length,
}
use riscv_os.Text
use riscv_os.Text.Compare.{IsText}
use riscv_os.Strings.{Bytes, strlen, strcmp}
use riscv_os.Strings.Held.{Held}

-- `strlen` of a text in the memory ends with the text's length, with a round more as fuel.
strlen-length :
    (fuel : ℕ) (m : Bytes) (p : ℕ) (xs : List ℕ)
    → IsText xs
    → Held m p (xs ++ 0 ∷ [])
    → length xs < fuel
    → strlen fuel m p ≡ some (length xs)
unfolding strlen
strlen-length zero m p xs t h lt = absurd (omega arith)
strlen-length (suc fuel) m p [] t (e, _) lt =
    let test : (m p == 0) ≡ true = ap (λ v. v == 0) e ∙ ==_refl 0 in rw test refl
strlen-length (suc fuel) m p (c ∷ xs) t (e, h) lt =
    let test : (m p == 0) ≡ false = ap (λ v. v == 0) e ∙ ne→==_false c 0 t.0 in
    rw (test, strlen-length fuel m (p + 1) xs t.1 h (omega arith)) refl

strcmp-Text :
    (fuel : ℕ) (m : Bytes) (p q : ℕ) (xs ys : List ℕ)
    → IsText xs
    → Held m p (xs ++ 0 ∷ [])
    → Held m q (ys ++ 0 ∷ [])
    → length xs < fuel
    → strcmp fuel m p q ≡ Text.strcmp (xs ++ 0 ∷ []) (ys ++ 0 ∷ [])
unfolding strcmp Text.strcmp
strcmp-Text zero m p q xs ys t hx hy lt = absurd (omega arith)
strcmp-Text (suc fuel) m p q [] [] t (ex, _) (ey, _) lt = rw (ex, ey) refl
strcmp-Text (suc fuel) m p q [] (d ∷ ys) t (ex, _) (ey, _) lt = rw (ex, ey) refl
strcmp-Text (suc fuel) m p q (c ∷ xs) [] t (ex, _) (ey, _) lt =
    rw (ex, ey, ne→==_false c 0 t.0) refl
strcmp-Text (suc fuel) m p q (c ∷ xs) (d ∷ ys) t (ex, hx) (ey, hy) lt =
    rw (ex, ey, strcmp-Text fuel m (p + 1) (q + 1) xs ys t.1 hx hy (omega arith)) refl
