-- ===== src/Shell/Rounds.antt =====
-- user/shell.c: one round of the loop that splits the line into arguments.
use riscv_os.Prelude.{
  ℕ, zero, suc, ◌+◌, ◌≡◌, refl, sym, ap, ◌∙◌, Option, none, some, List, [], ◌∷◌, ◌++◌, append_assoc,
  append-nil, drop, length, length-append, take, false, inl, inr, ne→==_false, replicate,
}
use riscv_os.Text.Token.{Strtok, strtok, next_token, start_at}
use riscv_os.Text.Words.{
  space, spaces, words, string_at, IsWord, words-replicate, words_last, words_more,
}
use riscv_os.Text.Cut.{cut, cut_blank, cut_last, cut_more, cut_text}
use riscv_os.Text.Calls.{drop-append, lead, length-lead, next_token_blank, next_token_ended}
use riscv_os.Shell.{tokenize}

string_at-append : (w r : List ℕ) → IsWord w → string_at (w ++ 0 ∷ r) ≡ w
string_at-append [] r h = refl
string_at-append (c ∷ w) r h = rw (ne→==_false c 0 h.0, string_at-append w r h.2)

-- The word at a token's position, once its terminator is written.
word_at :
    (before : List ℕ) (n : ℕ) (w r : List ℕ)
    → IsWord w
    → string_at (drop (length before + n) ((lead before n ++ w) ++ 0 ∷ r)) ≡ w
word_at before n w r iw =
    ap (λ k. string_at (drop k ((lead before n ++ w) ++ 0 ∷ r))) (sym (length-lead before n))
    ∙ ap (λ l. string_at (drop (length (lead before n)) l)) (append_assoc (lead before n) w (0 ∷ r))
    ∙ ap string_at (drop-append (lead before n) (w ++ 0 ∷ r))
    ∙ string_at-append w r iw

take-nil : {A : Type 0} (n : ℕ) → take {A = A} n [] ≡ []
take-nil zero = refl
take-nil (suc n) = refl

tokenize_null :
    (n : ℕ) (text : List ℕ)
    → tokenize n none (record { text = text; saved = none }) ≡ some ([], text)
unfolding tokenize strtok
tokenize_null zero text = refl
tokenize_null (suc n) text = refl

-- The call behind the last argument that there is room for.
tokenize_full :
    (p : ℕ) (token start : Option ℕ) (s s' : Strtok)
    → start_at start s.saved ≡ some p
    → next_token spaces p s.text ≡ some (token, s')
    → tokenize zero start s ≡ some ([], s'.text)
unfolding tokenize strtok
tokenize_full p token start s s' hp h = rw (tokenize, strtok, hp, h)

-- One round, for what the call of `strtok` returns.
tokenize-none :
    (n p : ℕ) (start : Option ℕ) (s : Strtok) (s' : Strtok)
    → start_at start s.saved ≡ some p
    → next_token spaces p s.text ≡ some (none, s')
    → tokenize (suc n) start s ≡ some ([], s'.text)
unfolding tokenize strtok
tokenize-none n p start s s' hp h = rw (tokenize, strtok, hp, h)

tokenize-some :
    (n p q : ℕ) (start : Option ℕ) (s s' : Strtok) (argv text : List ℕ)
    → start_at start s.saved ≡ some p
    → next_token spaces p s.text ≡ some (some q, s')
    → tokenize n none s' ≡ some (argv, text)
    → tokenize (suc n) start s ≡ some (q ∷ argv, text)
unfolding tokenize strtok
tokenize-some n p q start s s' argv text hp h h' = rw (tokenize, strtok, hp, h, h')

-- The strings at positions of a text
abbrev pub strings_at : List ℕ → List ℕ → List (List ℕ)
strings_at text [] = []
strings_at text (p ∷ ps) = string_at (drop p text) ∷ strings_at text ps

-- The loop from a place behind `before`: it leaves `before` as it is, and its arguments are the first
-- words of what comes.
abbrev pub Splits : ℕ → Option ℕ → Strtok → List ℕ → List ℕ → List ℕ → Type 0
Splits n start s before t r =
    (argv after : List ℕ) × (tokenize n start s ≡ some (argv, before ++ after))
    × (after ≡ cut (suc n) false t ++ 0 ∷ r)
    × (strings_at (before ++ after) argv ≡ take n (words t))

module _ (n : ℕ) (start : Option ℕ) (s : Strtok) (before t r : List ℕ)
    (here : start_at start s.saved ≡ some (length before))
    (shape : s.text ≡ before ++ (t ++ 0 ∷ r)) where
  -- The text when spaces and then `x` come next
  pub led :
      (k : ℕ) (x : List ℕ) → t ≡ replicate k space ++ x → s.text ≡ lead before k ++ (x ++ 0 ∷ r)
  led k x e =
      shape
      ∙ ap (λ l. before ++ (l ++ 0 ∷ r)) e
      ∙ ap (λ l. before ++ l) (append_assoc (replicate k space) x (0 ∷ r))
      ∙ sym (append_assoc before (replicate k space) (x ++ 0 ∷ r))

  -- No room is left.
  pub full-Splits :
      (token : Option ℕ) (s' : Strtok) (after : List ℕ)
      → next_token spaces (length before) s.text ≡ some (token, s')
      → s'.text ≡ before ++ after
      → after ≡ cut 1 false t ++ 0 ∷ r
      → Splits zero start s before t r
  full-Splits token s' after call e left = (
    [],
    after,
    tokenize_full (length before) token start s s' here call ∙ ap (λ l. some ([], l)) e,
    left,
    refl,
  )

  pub blank-Splits : (k : ℕ) → t ≡ replicate k space → Splits (suc n) start s before t r
  unfolding words
  blank-Splits k e =
      let e' : t ≡ replicate k space ++ [] = e ∙ sym (append-nil (replicate k space)) in
      (
        [],
        replicate k space ++ 0 ∷ r,
        tokenize-none n (length before) start s _ here
              (ap (next_token spaces (length before)) (led k [] e') ∙ next_token_blank before k r)
            ∙ ap (λ l. some ([], l)) (append_assoc before (replicate k space) (0 ∷ r)),
        ap (λ l. l ++ 0 ∷ r) (sym (ap (cut (suc (suc n)) false) e ∙ cut_blank (suc n) k)),
        sym (ap (λ l. take (suc n) (words l)) e' ∙ ap (take (suc n)) (words-replicate k [])),
      )

  pub last-Splits :
      (k c : ℕ) (w : List ℕ)
      → IsWord (c ∷ w)
      → t ≡ replicate k space ++ (c ∷ w)
      → Splits (suc n) start s before t r
  last-Splits k c w iw e =
      let back : (lead before k ++ (c ∷ w)) ++ 0 ∷ r
          ≡ before ++ (replicate k space ++ ((c ∷ w) ++ 0 ∷ r)) =
        append_assoc (lead before k) (c ∷ w) (0 ∷ r)
        ∙ append_assoc before (replicate k space) ((c ∷ w) ++ 0 ∷ r) in
      (
        (length before + k) ∷ [],
        replicate k space ++ ((c ∷ w) ++ 0 ∷ r),
        tokenize-some n (length before) (length before + k) start s _ [] _ here
              (ap (next_token spaces (length before)) (led k (c ∷ w) e)
                ∙ next_token_ended before k c w 0 r iw (inl refl))
              (tokenize_null n _)
            ∙ ap (λ l. some ((length before + k) ∷ [], l)) back,
        cut_text (suc n) k t (c ∷ w) _ r
            (ap (cut (suc (suc n)) false) e ∙ cut_last (suc n) k c w iw) refl,
        ap (λ l. string_at (drop (length before + k) l) ∷ []) (sym back)
            ∙ ap (λ l. l ∷ []) (word_at before k (c ∷ w) r iw)
            ∙ ap (λ l. (c ∷ w) ∷ l) (sym (take-nil n))
            ∙ sym (
                ap (λ l. take (suc n) (words l)) e
                ∙ ap (take (suc n)) (words-replicate k (c ∷ w) ∙ words_last c w iw)),
      )

  -- Up to the terminator that the call writes behind a word
  pub ended : ℕ → ℕ → List ℕ → List ℕ
  ended k c w = (lead before k ++ (c ∷ w)) ++ 0 ∷ []

  ended-length :
      (k c : ℕ) (w : List ℕ) → length (ended k c w) ≡ length (lead before k ++ (c ∷ w)) + 1
  unfolding ended
  ended-length k c w = length-append (lead before k ++ (c ∷ w)) (0 ∷ [])

  pub more-Splits :
      (k c : ℕ) (w t' : List ℕ)
      → IsWord (c ∷ w)
      → t ≡ replicate k space ++ ((c ∷ w) ++ space ∷ t')
      → Splits n none
          (record { text = ended k c w ++ (t' ++ 0 ∷ r); saved = some (length (ended k c w)) })
          (ended k c w)
          t'
          r
      → Splits (suc n) start s before t r
  unfolding ended
  more-Splits k c w t' iw e (argv, after, run, left, same) =
      let front = lead before k ++ (c ∷ w) in
      let split : (x : List ℕ) → (front ++ 0 ∷ []) ++ x ≡ front ++ 0 ∷ x =
        λ x. append_assoc front (0 ∷ []) x in
      let back : ended k c w ++ after ≡ before ++ (replicate k space ++ ((c ∷ w) ++ 0 ∷ after)) =
        split after
        ∙ append_assoc (lead before k) (c ∷ w) (0 ∷ after)
        ∙ append_assoc before (replicate k space) ((c ∷ w) ++ 0 ∷ after) in
      (
        (length before + k) ∷ argv,
        replicate k space ++ ((c ∷ w) ++ 0 ∷ after),
        tokenize-some n (length before) (length before + k) start s _ argv _ here
              (ap (next_token spaces (length before)) (
                  led k ((c ∷ w) ++ space ∷ t') e
                  ∙ ap (λ l. lead before k ++ l) (append_assoc (c ∷ w) (space ∷ t') (0 ∷ r)))
                ∙ next_token_ended before k c w space (t' ++ 0 ∷ r) iw (inr refl))
              (ap (tokenize n none) (
                  ap (λ l. record { text = l; saved = some (length front + 1) })
                    (sym (split (t' ++ 0 ∷ r)))
                  ∙ ap (λ i. record { text = ended k c w ++ (t' ++ 0 ∷ r); saved = some i })
                      (sym (ended-length k c w)))
                ∙ run)
            ∙ ap (λ l. some ((length before + k) ∷ argv, l)) back,
        cut_text (suc n) k t ((c ∷ w) ++ 0 ∷ cut (suc n) false t') _ r
            (ap (cut (suc (suc n)) false) e ∙ cut_more (suc n) k c w t' iw)
            (append_assoc (c ∷ w) (0 ∷ cut (suc n) false t') (0 ∷ r)
              ∙ ap (λ l. (c ∷ w) ++ 0 ∷ l) (sym left)),
        ap (λ l. strings_at l ((length before + k) ∷ argv)) (sym back)
            ∙ ap (λ l. l ∷ strings_at (ended k c w ++ after) argv)
                (ap (λ l. string_at (drop (length before + k) l)) (split after)
                  ∙ word_at before k (c ∷ w) after iw)
            ∙ ap (λ l. (c ∷ w) ∷ l) same
            ∙ sym (
                ap (λ l. take (suc n) (words l)) e
                ∙ ap (take (suc n))
                    (words-replicate k ((c ∷ w) ++ space ∷ t') ∙ words_more c w t' iw)),
      )
