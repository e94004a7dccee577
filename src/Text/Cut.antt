-- ===== src/Text/Cut.antt =====
-- kernel/string.c and user/lib/string.c: the text that calls of `strtok` leave.
use riscv_os.Prelude.{
  ℕ, zero, suc, ◌≡◌, refl, sym, ap, ◌∙◌, Bool, true, false, List, [], ◌∷◌, ◌++◌, ◌==◌,
  if◌then◌else◌, append-nil, append_assoc, ne→==_false, replicate,
}
use riscv_os.Text.Words.{space, IsWord}

-- A text whose first `n` words have a terminator in place of the space behind them, from a place
-- outside a word or inside one.
unfoldable pub cut : ℕ → Bool → List ℕ → List ℕ
cut zero inside t = t
cut (suc n) inside [] = []
cut (suc n) false (c ∷ t) =
    let blank = cut (suc n) false t in
    let word = cut (suc n) true t in c ∷ (if c == space then blank else word)
cut (suc n) true (c ∷ t) =
    let behind = cut n false t in
    let word = cut (suc n) true t in if c == space then 0 ∷ behind else c ∷ word

cut-replicate :
    (n k : ℕ) (x : List ℕ)
    → cut (suc n) false (replicate k space ++ x) ≡ replicate k space ++ cut (suc n) false x
unfolding cut
cut-replicate n zero x = refl
cut-replicate n (suc k) x = ap (λ l. space ∷ l) (cut-replicate n k x)

cut_inside : (n : ℕ) (w x : List ℕ) → IsWord w → cut (suc n) true (w ++ x) ≡ w ++ cut (suc n) true x
unfolding cut
cut_inside n [] x h = refl
cut_inside n (c ∷ w) x h = rw (ne→==_false c space h.1) (ap (λ l. c ∷ l) (cut_inside n w x h.2))

cut_word :
    (n c : ℕ) (w x : List ℕ)
    → IsWord (c ∷ w)
    → cut (suc n) false ((c ∷ w) ++ x) ≡ (c ∷ w) ++ cut (suc n) true x
unfolding cut
cut_word n c w x h = rw (ne→==_false c space h.1) (ap (λ l. c ∷ l) (cut_inside n w x h.2))

pub cut_blank : (n k : ℕ) → cut (suc n) false (replicate k space) ≡ replicate k space
unfolding cut
cut_blank n k =
    ap (cut (suc n) false) (sym (append-nil (replicate k space)))
    ∙ cut-replicate n k []
    ∙ append-nil (replicate k space)

pub cut_last :
    (n k c : ℕ) (w : List ℕ)
    → IsWord (c ∷ w)
    → cut (suc n) false (replicate k space ++ (c ∷ w)) ≡ replicate k space ++ (c ∷ w)
unfolding cut
cut_last n k c w iw =
    cut-replicate n k (c ∷ w)
    ∙ ap (λ l. replicate k space ++ l)
        (ap (cut (suc n) false) (sym (append-nil (c ∷ w)))
          ∙ cut_word n c w [] iw
          ∙ append-nil (c ∷ w))

pub cut_more :
    (n k c : ℕ) (w t' : List ℕ)
    → IsWord (c ∷ w)
    → cut (suc n) false (replicate k space ++ ((c ∷ w) ++ space ∷ t'))
      ≡ replicate k space ++ ((c ∷ w) ++ 0 ∷ cut n false t')
unfolding cut
cut_more n k c w t' iw =
    cut-replicate n k ((c ∷ w) ++ space ∷ t')
    ∙ ap (λ l. replicate k space ++ l) (cut_word n c w (space ∷ t') iw)

-- What is behind the spaces and the word, once the terminator is in place
pub cut_text :
    (n k : ℕ) (t x y r : List ℕ)
    → cut (suc n) false t ≡ replicate k space ++ x
    → x ++ 0 ∷ r ≡ y
    → replicate k space ++ y ≡ cut (suc n) false t ++ 0 ∷ r
cut_text n k t x y r e f =
    ap (λ l. replicate k space ++ l) (sym f)
    ∙ sym (append_assoc (replicate k space) x (0 ∷ r))
    ∙ ap (λ l. l ++ 0 ∷ r) (sym e)
