-- ===== src/Strings/Copied.antt =====
-- user/lib/string.c: what the functions that copy leave in the memory, at objects that may overlap
-- or that have no byte in common.
use riscv_os.Prelude.{
  ℕ, zero, suc, ◌+◌, ◌≤◌, ◌<◌, ◌≡◌, ◌≢◌, ◌⊎◌, refl, ap, ◌∙◌, inl, inr, some, List, [], ◌∷◌, ◌++◌,
  true, false, ◌==◌, ==_refl, ne→==_false, arith, length,
}
use riscv_os.Text.Compare.{IsText}
use riscv_os.Strings.{Bytes, put, strcpy, strcat, memcpy}
use riscv_os.Strings.Held.{Held, Outside, Apart, put-here, put-ne, put-Held}

-- Two memories agree outside an object.
abbrev pub SameOutside : Bytes → Bytes → (p n : ℕ) → Type 0
SameOutside m m' p n = (a : ℕ) → Outside a p n → m' a ≡ m a

Outside-rest : (a p n : ℕ) → Outside a p (suc n) → Outside a (p + 1) n × (a ≢ p)
Outside-rest a p n (inl lt) = (inl (omega arith), λ e. absurd (omega (arith, e, lt)))
Outside-rest a p n (inr le) = (inr (omega arith), λ e. absurd (omega (arith, e, le)))

Outside-eq : (a p n k : ℕ) → n ≡ k → Outside a p k → Outside a p n
Outside-eq a p n k e (inl lt) = inl lt
Outside-eq a p n k e (inr le) = inr (omega arith)

-- A first byte, and what is written behind it
then_outside :
    (m m' : Bytes) (p v n : ℕ) → SameOutside (put m p v) m' (p + 1) n → SameOutside m m' p (suc n)
then_outside m m' p v n h a o = let (o', ne) = Outside-rest a p n o in h a o' ∙ put-ne m p v a ne

first_kept : (m m' : Bytes) (p v n : ℕ) → SameOutside (put m p v) m' (p + 1) n → m' p ≡ v
first_kept m m' p v n h = h p (inl (omega arith)) ∙ put-here m p v

forward_rest : (d s n : ℕ) → (d ≤ s) ⊎ (s + suc n ≤ d) → (d + 1 ≤ s + 1) ⊎ (s + 1 + n ≤ d + 1)
forward_rest d s n (inl le) = inl (omega arith)
forward_rest d s n (inr le) = inr (omega arith)

forward_ne : (d s n j : ℕ) → (d ≤ s) ⊎ (s + suc n ≤ d) → j < n → s + 1 + j ≢ d
forward_ne d s n j (inl le) lt e = absurd (omega (arith, le, e))
forward_ne d s n j (inr le) lt e = absurd (omega (arith, le, e, lt))

memcpy_outside : (m : Bytes) (dest src n : ℕ) → SameOutside m (memcpy m dest src n) dest n
unfolding memcpy
memcpy_outside m dest src zero = λ a o. refl
memcpy_outside m dest src (suc n) =
    then_outside m _ dest (m src) n (memcpy_outside (put m dest (m src)) (dest + 1) (src + 1) n)

memcpy_bytes :
    (m : Bytes) (dest src n : ℕ)
    → (dest ≤ src) ⊎ (src + n ≤ dest)
    → (i : ℕ) → i < n
    → memcpy m dest src n (dest + i) ≡ m (src + i)
unfolding memcpy
memcpy_bytes m dest src zero h i lt = absurd (omega arith)
memcpy_bytes m dest src (suc n) h zero lt =
    let ed : dest + zero ≡ dest = omega arith in
    let es : src ≡ src + zero = omega arith in
    ap (memcpy (put m dest (m src)) (dest + 1) (src + 1) n) ed
    ∙ first_kept m _ dest (m src) n (memcpy_outside (put m dest (m src)) (dest + 1) (src + 1) n)
    ∙ ap m es
memcpy_bytes m dest src (suc n) h (suc j) lt =
    let ed : dest + suc j ≡ dest + 1 + j = omega arith in
    let es : src + 1 + j ≡ src + suc j = omega arith in
    ap (memcpy (put m dest (m src)) (dest + 1) (src + 1) n) ed
    ∙ memcpy_bytes (put m dest (m src)) (dest + 1) (src + 1) n (forward_rest dest src n h) j
        (omega arith)
    ∙ put-ne m dest (m src) (src + 1 + j) (forward_ne dest src n j h (omega arith))
    ∙ ap m es

-- `memcpy` between objects that overlap or not, if the destination does not begin behind the
-- source's first byte and before its end: every byte of the destination is the byte that the source
-- had before the copy, and no other byte changes.
pub memcpy-SameOutside :
    (m : Bytes) (dest src n : ℕ)
    → (dest ≤ src) ⊎ (src + n ≤ dest)
    → ((i : ℕ) → i < n → memcpy m dest src n (dest + i) ≡ m (src + i))
      × SameOutside m (memcpy m dest src n) dest n
memcpy-SameOutside m dest src n h = (memcpy_bytes m dest src n h, memcpy_outside m dest src n)

abbrev pub Terminated : Bytes → ℕ → List ℕ → Type 0
Terminated m p xs = Held m p (xs ++ 0 ∷ [])

Apart-rest :
    (p q n : ℕ) → Apart p (suc n) q (suc n) → Apart (p + 1) n (q + 1) n × Outside p (q + 1) n
Apart-rest p q n (inl le) = (inl (omega arith), inl (omega arith))
Apart-rest p q n (inr le) = (inr (omega arith), inr (omega arith))

length-terminated : (xs : List ℕ) → length (xs ++ 0 ∷ []) ≡ suc (length xs)
length-terminated [] = refl
length-terminated (x ∷ xs) = ap suc (length-terminated xs)

strcpy-Terminated :
    (fuel : ℕ) (m : Bytes) (dst src : ℕ) (xs : List ℕ)
    → IsText xs
    → Terminated m src xs
    → Apart dst (length (xs ++ 0 ∷ [])) src (length (xs ++ 0 ∷ []))
    → length xs < fuel
    → (m' : Bytes) × (strcpy fuel m dst src ≡ some m')
      × Terminated m' dst xs
      × SameOutside m m' dst (length (xs ++ 0 ∷ []))
unfolding strcpy
strcpy-Terminated zero m dst src xs t h ap lt = absurd (omega arith)
strcpy-Terminated (suc fuel) m dst src [] t (e, _) d lt =
    let test : (m src == 0) ≡ true = ap (λ v. v == 0) e ∙ ==_refl 0 in
    rw test
      (put m dst 0, refl, (put-here m dst 0, _), λ a o. put-ne m dst 0 a (Outside-rest a dst 0 o).1)
strcpy-Terminated (suc fuel) m dst src (c ∷ xs) t (e, h) d lt =
    let test : (m src == 0) ≡ false = ap (λ v. v == 0) e ∙ ne→==_false c 0 t.0 in
    let n = length (xs ++ 0 ∷ []) in
    let (apart, out) = Apart-rest dst src n d in
    let h1 = put-Held m dst (m src) (src + 1) (xs ++ 0 ∷ []) out h in
    let (m', e', held, same) =
      strcpy-Terminated fuel (put m dst (m src)) (dst + 1) (src + 1) xs t.1 h1 apart
        (omega arith) in
    rw test
      (m', e', (first_kept m m' dst (m src) n same ∙ e, held), then_outside m m' dst (m src) n same)

-- `strcat` with a text at `dest` and one at `src`, where the memory from `dest` on that the result
-- takes has no byte in common with the second text: with fuel for both texts it ends, the two texts
-- stand behind each other at `dest` with one terminator, and no byte outside changes.
strcat-Terminated :
    (fuel : ℕ) (m : Bytes) (dest src : ℕ) (xs ys : List ℕ)
    → IsText xs
    → IsText ys
    → Terminated m dest xs
    → Terminated m src ys
    → (dest + (length xs + suc (length ys)) ≤ src) ⊎ (src + suc (length ys) ≤ dest)
    → length xs + length ys < fuel
    → (m' : Bytes) × (strcat fuel m dest src ≡ some m')
      × Terminated m' dest (xs ++ ys)
      × SameOutside m m' dest (length xs + suc (length ys))
unfolding strcat
strcat-Terminated zero m dest src xs ys tx ty hx hy d lt = absurd (omega arith)
strcat-Terminated (suc fuel) m dest src [] ys tx ty (e, _) hy d lt =
    let test : (m dest == 0) ≡ true = ap (λ v. v == 0) e ∙ ==_refl 0 in
    let l = length-terminated ys in
    let apart : Apart dest (length (ys ++ 0 ∷ [])) src (length (ys ++ 0 ∷ [])) = elim d [
      | inl le ↦ inl (omega (arith, l, le))
      | inr le ↦ inr (omega (arith, l, le))
    ] in
    let (m', e', held, same) =
      strcpy-Terminated (suc fuel) m dest src ys ty hy apart (omega arith) in
    rw test (
      m',
      e',
      held,
      λ a o. same a (Outside-eq a dest (length (ys ++ 0 ∷ [])) _ (l ∙ omega arith) o),
    )
strcat-Terminated (suc fuel) m dest src (c ∷ xs) ys tx ty (e, hx) hy d lt =
    let test : (m dest == 0) ≡ false = ap (λ v. v == 0) e ∙ ne→==_false c 0 tx.0 in
    let n = length xs + suc (length ys) in
    let rest : (dest + 1 + n ≤ src) ⊎ (src + suc (length ys) ≤ dest + 1) = elim d [
      | inl le ↦ inl (omega (arith, le))
      | inr le ↦ inr (omega (arith, le))
    ] in
    let (m', e', held, same) =
      strcat-Terminated fuel m (dest + 1) src xs ys tx.1 ty hx hy rest (omega arith) in
    rw test (
      m',
      e',
      (same dest (inl (omega arith)) ∙ e, held),
      λ a o. same a (Outside-rest a dest n (Outside-eq a dest (suc n) _ (omega arith) o)).0,
    )
