-- ===== src/Text/Copy.antt =====
-- kernel/string.c: the functions that write, at terminated strings.
use riscv_os.Prelude.{
  ℕ, zero, suc, ◌-◌, ◌%◌, ◌≤◌, ◌<◌, ◌≡◌, refl, ap, ◌∙◌, some, List, [], ◌∷◌, ◌++◌, arith, length,
  ne→==_false, take, drop, replicate,
}
use riscv_os.Text.{memset, strncpy, memcpy, strcpy}
use riscv_os.Text.Compare.{IsText}

-- `memset` writes the first `n` bytes, if the object has as many, and no other.
pub memset-replicate :
    (d : List ℕ) (v n : ℕ) → n ≤ length d → memset d v n ≡ some (replicate n (v % 256) ++ drop n d)
unfolding memset
memset-replicate d v zero h = refl
memset-replicate [] v (suc n) h = absurd (omega arith)
memset-replicate (x ∷ d) v (suc n) h = rw (memset-replicate d v n (omega arith))

-- `memcpy` replaces the first `n` bytes by those of the source.
pub memcpy-take :
    (d s : List ℕ) (n : ℕ)
    → n ≤ length d
    → n ≤ length s
    → memcpy d s n ≡ some (take n s ++ drop n d)
unfolding memcpy
memcpy-take d s zero h k = refl
memcpy-take [] s (suc n) h k = absurd (omega arith)
memcpy-take (x ∷ d) [] (suc n) h k = absurd (omega arith)
memcpy-take (x ∷ d) (c ∷ s) (suc n) h k = rw (memcpy-take d s n (omega arith) (omega arith))

-- `strncpy` of a terminated string into an object of at least `n` bytes writes at most `n` bytes of
-- the string, fills up with zeros to `n`, and leaves the rest.
strncpy-take :
    (d xs r : List ℕ) (n : ℕ)
    → IsText xs
    → n ≤ length d
    → strncpy d (xs ++ 0 ∷ r) n ≡ some (take n xs ++ (replicate (n - length xs) 0 ++ drop n d))
unfolding strncpy
strncpy-take d xs r zero t h = ap (λ k. some (replicate k 0 ++ d)) (zeros (length xs))
  where
    zeros : (k : ℕ) → zero ≡ zero - k
    zeros k = omega arith
strncpy-take [] xs r (suc n) t h = absurd (omega arith)
strncpy-take (x ∷ d) [] r (suc n) t h =
    let e : suc n ≡ suc n - 0 = omega arith in
    memset-replicate (x ∷ d) 0 (suc n) h ∙ ap (λ k. some (replicate k 0 ++ drop n d)) e
strncpy-take (x ∷ d) (c ∷ xs) r (suc n) t h =
    rw (ne→==_false c 0 t.0, strncpy-take d xs r n t.1 (omega arith))
      (ap (λ k. some (c ∷ (take n xs ++ (replicate k 0 ++ drop n d)))) (omega arith))

-- `strcpy` of a terminated string that fits copies it with its terminator, and leaves the rest.
pub strcpy-drop :
    (d xs r : List ℕ)
    → IsText xs
    → length xs < length d
    → strcpy d (xs ++ 0 ∷ r) ≡ some (xs ++ 0 ∷ drop (suc (length xs)) d)
unfolding strcpy
strcpy-drop [] xs r t h = absurd (omega arith)
strcpy-drop (x ∷ d) [] r t h = refl
strcpy-drop (x ∷ d) (c ∷ xs) r t h = rw (ne→==_false c 0 t.0, strcpy-drop d xs r t.1 (omega arith))
