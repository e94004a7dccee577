-- ===== src/Shell/Command.antt =====
-- user/shell.c: the loop that splits the line into arguments.
use riscv_os.Prelude.{
  arith, ℕ, zero, suc, ◌+◌, ◌≡◌, refl, sym, ap, ◌∙◌, Option, none, some, List, [], ◌∷◌, ◌++◌,
  append_assoc, append-nil, length, take, false, inl, inr, replicate,
}
use riscv_os.Text.Compare.{IsText}
use riscv_os.Text.Token.{Strtok, next_token, start_at}
use riscv_os.Text.Words.{space, spaces, words, blank, last, more, front}
use riscv_os.Text.Cut.{cut, cut_blank, cut_last, cut_more, cut_text}
use riscv_os.Text.Calls.{lead, next_token_blank, next_token_ended}
use riscv_os.Shell.{tokenize}
use riscv_os.Shell.Rounds.{
  Splits, blank-Splits, ended, full-Splits, last-Splits, led, more-Splits, strings_at,
}

-- The text when spaces and a word were passed
passed :
    (before : List ℕ) (k : ℕ) (w x : List ℕ)
    → (lead before k ++ w) ++ x ≡ before ++ (replicate k space ++ (w ++ x))
passed before k w x =
    append_assoc (lead before k) w x ∙ append_assoc before (replicate k space) (w ++ x)

tokenize_full-Splits :
    (start : Option ℕ) (s : Strtok) (before t r : List ℕ)
    → start_at start s.saved ≡ some (length before)
    → s.text ≡ before ++ (t ++ 0 ∷ r)
    → IsText t
    → Splits zero start s before t r
unfolding cut
tokenize_full-Splits start s before t r here shape text = elim (front t text) [
  | blank k e ↦
      full-Splits zero start s before t r here shape none _ (replicate k space ++ 0 ∷ r)
        (ap (next_token spaces (length before))
            (led zero start s before t r here shape k [] (e ∙ sym (append-nil (replicate k space))))
          ∙ next_token_blank before k r)
        (append_assoc before (replicate k space) (0 ∷ r))
        (ap (λ l. l ++ 0 ∷ r) (sym (ap (cut 1 false) e ∙ cut_blank 0 k)))
  | last k c w iw e ↦
      full-Splits zero start s before t r here shape (some (length before + k)) _
        (replicate k space ++ ((c ∷ w) ++ 0 ∷ r))
        (ap (next_token spaces (length before)) (led zero start s before t r here shape k (c ∷ w) e)
          ∙ next_token_ended before k c w 0 r iw (inl refl))
        (passed before k (c ∷ w) (0 ∷ r))
        (cut_text 0 k t (c ∷ w) _ r (ap (cut 1 false) e ∙ cut_last 0 k c w iw) refl)
  | more k c w t' iw it e ↦
      full-Splits zero start s before t r here shape (some (length before + k)) _
        (replicate k space ++ ((c ∷ w) ++ 0 ∷ (t' ++ 0 ∷ r)))
        (ap (next_token spaces (length before)) (
            led zero start s before t r here shape k ((c ∷ w) ++ space ∷ t') e
            ∙ ap (λ l. lead before k ++ l) (append_assoc (c ∷ w) (space ∷ t') (0 ∷ r)))
          ∙ next_token_ended before k c w space (t' ++ 0 ∷ r) iw (inr refl))
        (passed before k (c ∷ w) (0 ∷ (t' ++ 0 ∷ r)))
        (cut_text 0 k t ((c ∷ w) ++ 0 ∷ t') _ r (ap (cut 1 false) e ∙ cut_more 0 k c w t' iw)
          (append_assoc (c ∷ w) (0 ∷ t') (0 ∷ r)))
]

tokenize-Splits :
    (n : ℕ) (start : Option ℕ) (s : Strtok) (before t r : List ℕ)
    → start_at start s.saved ≡ some (length before)
    → s.text ≡ before ++ (t ++ 0 ∷ r)
    → IsText t
    → Splits n start s before t r
tokenize-Splits zero start s before t r here shape text =
    tokenize_full-Splits start s before t r here shape text
tokenize-Splits (suc n) start s before t r here shape text = elim (front t text) [
  | blank k e ↦ blank-Splits n start s before t r here shape k e
  | last k c w iw e ↦ last-Splits n start s before t r here shape k c w iw e
  | more k c w t' iw it e ↦
      more-Splits n start s before t r here shape k c w t' iw e
        (tokenize-Splits n none _ (ended n start s before t r here shape k c w) t' r refl refl it)
]

-- `strtok` called again and again, as the shell does, on a text without terminator inside: the
-- calls end, also the one behind the last argument that there is room for, and the arguments are
-- the first words of the text, as many as there is room for. In the text that all these calls leave
-- each argument is the string at its position, and the text is the one before with a terminator in
-- place of the space behind each of these words and behind the next one.
pub tokenize-words :
    (n : ℕ) (t r : List ℕ)
    → IsText t
    → (argv text : List ℕ) × (tokenize n (some 0) (record { text = t ++ 0 ∷ r; saved = none })
        ≡ some (argv, text))
      × (strings_at text argv ≡ take n (words t))
      × (text ≡ cut (n + 1) false t ++ 0 ∷ r)
tokenize-words n t r text =
    let e : suc n ≡ n + 1 = omega arith in
    let (argv, after, run, left, same) = tokenize-Splits n (some 0) _ [] t r refl refl text in
    (argv, after, run, same, left ∙ ap (λ m. cut m false t ++ 0 ∷ r) e)
