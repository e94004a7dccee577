-- ===== src/Text/Calls.antt =====
-- kernel/string.c and user/lib/string.c: one call of `strtok` with the delimiter " ", from a place
-- behind `before` in a text.
use riscv_os.Prelude.{
  ℕ, ◌+◌, ◌≡◌, refl, sym, ap, ◌∙◌, ◌≢◌, none, some, List, [], ◌∷◌, ◌++◌, append_assoc, ◌==◌,
  if◌then◌else◌, get_elem?, drop, set, arith, length, length-append, length-replicate, ne→==_false,
  replicate,
}
use riscv_os.Text.Token.{skip_delims, token_end, end_token, next_token}
use riscv_os.Text.Words.{
  space, spaces, IsWord, IsEnd, skip_delims-replicate, skip_delims_word, token_end-length,
}

module _ {ℓ} {A : Type ℓ} where
  pub drop-append : (xs ys : List A) → drop (length xs) (xs ++ ys) ≡ ys
  drop-append [] ys = refl
  drop-append (x ∷ xs) ys = drop-append xs ys

  get_elem?-append : (xs ys : List A) (y : A) → get_elem? (xs ++ y ∷ ys) (length xs) ≡ some y
  get_elem?-append [] ys y = refl
  get_elem?-append (x ∷ xs) ys y = get_elem?-append xs ys y

  pub set-append : (xs ys : List A) (y v : A) → set (xs ++ y ∷ ys) (length xs) v ≡ xs ++ v ∷ ys
  set-append [] ys y v = refl
  set-append (x ∷ xs) ys y v = ap (λ l. x ∷ l) (set-append xs ys y v)

next_token-end_token :
    (d text : List ℕ) (p n m c : ℕ)
    → skip_delims d (drop p text) ≡ some n
    → get_elem? text (p + n) ≡ some c
    → c ≢ 0
    → token_end d (drop (p + n) text) ≡ some m
    → next_token d p text ≡ end_token (p + n) (p + n + m) text
unfolding next_token
next_token-end_token d text p n m c hs hg nz ht = rw (hs, hg, ne→==_false c 0 nz, ht)

next_token-none :
    (d text : List ℕ) (p n : ℕ)
    → skip_delims d (drop p text) ≡ some n
    → get_elem? text (p + n) ≡ some 0
    → next_token d p text ≡ some (none, record { text = text; saved = some (p + n) })
unfolding next_token
next_token-none d text p n hs hg = rw (hs, hg)

-- A text behind `before` and `n` spaces, and the length of what is in front of it
abbrev pub lead : List ℕ → ℕ → List ℕ
lead before n = before ++ replicate n space

pub length-lead : (before : List ℕ) (n : ℕ) → length (lead before n) ≡ length before + n
length-lead before n =
    length-append before (replicate n space)
    ∙ ap (λ k. length before + k) (length-replicate n space)

skip_lead :
    (before : List ℕ) (n : ℕ) (rest : List ℕ)
    → skip_delims spaces rest ≡ some 0
    → skip_delims spaces (drop (length before) (lead before n ++ rest)) ≡ some n
skip_lead before n rest h =
    ap (λ l. skip_delims spaces (drop (length before) l))
      (append_assoc before (replicate n space) rest)
    ∙ ap (skip_delims spaces) (drop-append before (replicate n space ++ rest))
    ∙ skip_delims-replicate n rest 0 h
    ∙ ap some (omega arith)

elem_lead :
    (before : List ℕ) (n c : ℕ) (rest : List ℕ)
    → get_elem? (lead before n ++ c ∷ rest) (length before + n) ≡ some c
elem_lead before n c rest =
    ap (get_elem? (lead before n ++ c ∷ rest)) (sym (length-lead before n))
    ∙ get_elem?-append (lead before n) rest c

-- Nothing is left but spaces: no token.
pub next_token_blank :
    (before : List ℕ) (n : ℕ) (rest : List ℕ)
    → next_token spaces (length before) (lead before n ++ 0 ∷ rest)
      ≡ some (none, record { text = lead before n ++ 0 ∷ rest; saved = some (length before + n) })
unfolding skip_delims
next_token_blank before n rest =
    next_token-none spaces (lead before n ++ 0 ∷ rest) (length before) n
      (skip_lead before n (0 ∷ rest) refl) (elem_lead before n 0 rest)

-- A word is next: the call goes on to its end.
next_token_word :
    (before : List ℕ) (n c : ℕ) (w : List ℕ) (e : ℕ) (rest : List ℕ)
    → IsWord (c ∷ w)
    → IsEnd e
    → next_token spaces (length before) (lead before n ++ ((c ∷ w) ++ e ∷ rest))
      ≡ end_token
          (length before + n)
          (length before + n + length (c ∷ w))
          (lead before n ++ ((c ∷ w) ++ e ∷ rest))
next_token_word before n c w e rest iw he =
    next_token-end_token spaces (lead before n ++ ((c ∷ w) ++ e ∷ rest)) (length before) n
      (length (c ∷ w)) c
      (skip_lead before n ((c ∷ w) ++ e ∷ rest) (skip_delims_word c (w ++ e ∷ rest) iw.0 iw.1))
      (elem_lead before n c (w ++ e ∷ rest)) iw.0
      (ap (λ k. token_end spaces (drop k (lead before n ++ ((c ∷ w) ++ e ∷ rest))))
          (sym (length-lead before n))
        ∙ ap (token_end spaces) (drop-append (lead before n) ((c ∷ w) ++ e ∷ rest))
        ∙ token_end-length (c ∷ w) e rest iw he)

-- The position of a word's end, and the text split there
end_eq :
    (before : List ℕ) (n : ℕ) (w : List ℕ)
    → length (lead before n ++ w) ≡ length before + n + length w
end_eq before n w = length-append (lead before n) w ∙ ap (λ k. k + length w) (length-lead before n)

end_token_at :
    (q : ℕ) (front : List ℕ) (e : ℕ) (rest : List ℕ)
    → end_token q (length front) (front ++ e ∷ rest) ≡ (
        if e == 0
        then some (some q, record { text = front ++ e ∷ rest; saved = none })
        else some (some q, record { text = front ++ 0 ∷ rest; saved = some (length front + 1) }))
unfolding end_token
end_token_at q front e rest = rw (get_elem?-append front rest e, set-append front rest e 0)

-- The call for a word, by what ends it.
pub next_token_ended :
    (before : List ℕ) (n c : ℕ) (w : List ℕ) (e : ℕ) (rest : List ℕ)
    → IsWord (c ∷ w)
    → IsEnd e
    → next_token spaces (length before) (lead before n ++ ((c ∷ w) ++ e ∷ rest)) ≡ (
        if e == 0
        then some (
          some (length before + n),
          record { text = (lead before n ++ (c ∷ w)) ++ e ∷ rest; saved = none },
        )
        else some (
          some (length before + n),
          record {
            text = (lead before n ++ (c ∷ w)) ++ 0 ∷ rest;
            saved = some (length (lead before n ++ (c ∷ w)) + 1);
          },
        ))
next_token_ended before n c w e rest iw he =
    next_token_word before n c w e rest iw he
    ∙ ap (λ k. end_token (length before + n) k (lead before n ++ ((c ∷ w) ++ e ∷ rest)))
        (sym (end_eq before n (c ∷ w)))
    ∙ ap (end_token (length before + n) (length (lead before n ++ (c ∷ w))))
        (sym (append_assoc (lead before n) (c ∷ w) (e ∷ rest)))
    ∙ end_token_at (length before + n) (lead before n ++ (c ∷ w)) e rest
