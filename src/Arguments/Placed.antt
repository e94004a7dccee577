-- ===== src/Arguments/Placed.antt =====
-- kernel/arguments.c: the arguments stand on the stack one above the other.
use riscv_os.Prelude.{
  ℕ, zero, suc, ◌+◌, ◌*◌, ◌%◌, ◌^◌, ◌≤◌, ◌<◌, ◌≡◌, refl, ◌∙◌, some, List, [], ◌∷◌, ◌++◌, ◌==◌,
  subst, ap, ==→eq, none, Bool-cases, Option-cases, inl, inr, length, take, arith, le→ltb_false,
}
use riscv_os.Text.{strnlen}
use riscv_os.Text.Words.{string_at}
use riscv_os.Arguments.{
  max_args, max_arg_length, push_down, Stored, place_rows, reversed, pointers, Arguments,
  place_pointers, setup_user_arguments,
}

-- Every row ends before its last byte.
abbrev pub AllEnd : List (List ℕ) → Type 0
AllEnd [] = Unit {0}
AllEnd (row ∷ rows) =
    ((n : ℕ) × (strnlen row max_arg_length ≡ some n) × (n < max_arg_length)) × AllEnd rows

-- The strings are those of the rows, in order, each with its terminator.
abbrev pub SameStrings : List (List ℕ) → List Stored → Type 0
SameStrings [] [] = Unit {0}
SameStrings [] (s ∷ ss) = ⊥
SameStrings (row ∷ rows) [] = ⊥
SameStrings (row ∷ rows) (s ∷ ss) = (s.bytes ≡ string_at row ++ 0 ∷ []) × SameStrings rows ss

reversed-reversed : (rows acc : List (List ℕ)) → reversed (reversed rows acc) [] ≡ reversed acc rows
reversed-reversed [] acc = refl
reversed-reversed (row ∷ rows) acc = reversed-reversed rows (row ∷ acc)

-- What is copied for a row: its string and the terminator.
take-string_at :
    (row : List ℕ) (max n : ℕ)
    → strnlen row max ≡ some n
    → n < max
    → take (suc n) row ≡ string_at row ++ 0 ∷ []
unfolding strnlen
take-string_at row zero n e h = absurd (omega arith)
take-string_at [] (suc max) n e h = absurd (cc)
take-string_at (c ∷ row) (suc max) n e h = elim (Bool-cases (c == 0)) [
  | inl z ↦
      let e0 : some 0 ≡ some n = rw z at e in
      let en : 0 ≡ n = cc in
      let ez : c ≡ 0 = ==→eq c 0 z in
      rw z (subst (λ k. take (suc k) (c ∷ row) ≡ 0 ∷ []) en (ap (λ x. x ∷ []) ez))
  | inr z ↦ elim (Option-cases (strnlen row max)) [
    | inl e0 ↦ absurd (no_end (rw (z, e0) at e))
    | inr (m, em) ↦
        let e1 : some (suc m) ≡ some n = rw (z, em) at e in
        let en : suc m ≡ n = cc in
        rw z (
          subst (λ k. take (suc k) (c ∷ row) ≡ c ∷ (string_at row ++ 0 ∷ [])) en
            (ap (λ l. c ∷ l) (take-string_at row max m em (omega (arith, en, h)))))
  ]
]
  where
    no_end : none ≡ some n → ⊥
    no_end q = cc

-- Whole words' addresses from `low` on, each behind the bytes before it, and all below `high`.
abbrev pub Placed : ℕ → ℕ → List Stored → Type 0
Placed low high [] = low ≤ high
Placed low high (s ∷ ss) =
    (low ≤ s.address) × (s.address % 8 ≡ 0) × Placed (s.address + length s.bytes) high ss

AllEnd-reversed : (rows acc : List (List ℕ)) → AllEnd rows → AllEnd acc → AllEnd (reversed rows acc)
AllEnd-reversed [] acc h a = a
AllEnd-reversed (row ∷ rows) acc h a = AllEnd-reversed rows (row ∷ acc) h.1 (h.0, a)

length-reversed : (rows acc : List (List ℕ)) → length (reversed rows acc) ≡ length rows + length acc
length-reversed [] acc = omega arith
length-reversed (row ∷ rows) acc = omega (arith, length-reversed rows (row ∷ acc))

length-take_le : (n : ℕ) (xs : List ℕ) → length (take n xs) ≤ n
length-take_le zero xs = omega arith
length-take_le (suc n) [] = omega arith
length-take_le (suc n) (x ∷ xs) = omega (arith, length-take_le n xs)

Placed-mono :
    (low low' high : ℕ) (ss : List Stored) → low' ≤ low → Placed low high ss → Placed low' high ss
Placed-mono low low' high [] le h = omega arith
Placed-mono low low' high (s ∷ ss) le h = (omega (arith, h.0), h.1, h.2)

-- Where the stack pointer goes if it does not wrap.
push_down-bounds :
    (sp len : ℕ)
    → len ≤ sp
    → sp < 2 ^ 64
    → (push_down sp len + len ≤ sp) × (sp ≤ push_down sp len + len + 7) × (push_down sp len % 8 ≡ 0)
push_down-bounds sp len fits small = (omega arith, omega arith, omega arith)

place_rows-step :
    (bottom sp n : ℕ) (row : List ℕ) (rows : List (List ℕ)) (acc : List Stored)
    → strnlen row max_arg_length ≡ some n
    → bottom ≤ push_down sp (n + 1)
    → place_rows bottom sp (row ∷ rows) acc
      ≡ place_rows bottom
          (push_down sp (n + 1))
          rows
          (record { address = push_down sp (n + 1); bytes = take (n + 1) row } ∷ acc)
unfolding place_rows
place_rows-step bottom sp n row rows acc e high =
    let test = le→ltb_false (push_down sp (n + 1)) bottom high in rw (e, place_rows) (rw test)

suc_place : (n : ℕ) → n + 1 ≡ suc n
suc_place n = omega arith

place_rows-Placed :
    (bottom top sp : ℕ) (rows rows0 : List (List ℕ)) (acc : List Stored)
    → AllEnd rows
    → bottom + 136 * length rows ≤ sp
    → sp < 2 ^ 64
    → Placed sp top acc
    → SameStrings rows0 acc
    → (sp' : ℕ) × (ss : List Stored) × (place_rows bottom sp rows acc ≡ some (sp', ss))
      × Placed sp' top ss
      × SameStrings (reversed rows rows0) ss
      × (sp ≤ sp' + 136 * length rows)
      × (sp' ≤ sp)
unfolding place_rows
place_rows-Placed bottom top sp [] rows0 acc ends room small p same =
    (sp, acc, refl, p, same, omega arith, omega arith)
place_rows-Placed bottom top sp (row ∷ rows) rows0 acc ends room small p same =
    let (n, en, short) = ends.0 in
    let next = push_down sp (n + 1) in
    let (below, near, aligned) = push_down-bounds sp (n + 1) (omega arith) small in
    let (sp', ss, e, placed, same', far, le) =
      place_rows-Placed bottom top next rows (row ∷ rows0)
        (record { address = next; bytes = take (n + 1) row } ∷ acc) ends.1 (omega arith)
        (omega arith)
        (
          omega arith,
          aligned,
          Placed-mono sp (next + length (take (n + 1) row)) top acc
              (omega (arith, length-take_le (n + 1) row)) p,
        )
        (ap (λ k. take k row) (suc_place n) ∙ take-string_at row max_arg_length n en short, same) in
    (
      sp',
      ss,
      place_rows-step bottom sp n row rows acc en (omega arith) ∙ e,
      placed,
      same',
      omega arith,
      omega arith,
    )

place_pointers-Placed :
    (bottom argc sp : ℕ) (ss : List Stored)
    → bottom ≤ push_down sp ((argc + 1) * 8)
    → place_pointers bottom argc (sp, ss)
      ≡ some (record { sp = push_down sp ((argc + 1) * 8); argv = pointers ss; strings = ss })
unfolding place_pointers
place_pointers-Placed bottom argc sp ss high =
    let test = le→ltb_false (push_down sp ((argc + 1) * 8)) bottom high in rw test

-- With at most eight arguments that end within their rows, and room on the stack for 136 bytes of each and for
-- the pointers, `setup_user_arguments` succeeds: the new stack pointer is a multiple of 8 and not
-- below the bottom, the strings stand above the pointers and below the old stack pointer, each
-- behind the one before and at a multiple of 8; they are exactly the arguments in order, each with
-- its terminator, and the pointers are their addresses in order.
pub setup_user_arguments-Placed :
    (bottom sp : ℕ) (rows : List (List ℕ))
    → length rows ≤ max_args
    → AllEnd rows
    → bottom + 136 * length rows + 8 * (length rows + 1) + 8 ≤ sp
    → sp < 2 ^ 64
    → (r : Arguments) × (setup_user_arguments bottom rows sp ≡ some r)
      × (bottom ≤ r.sp)
      × (r.sp % 8 ≡ 0)
      × Placed (r.sp + 8 * (length rows + 1)) sp r.strings
      × SameStrings rows r.strings
      × (r.argv ≡ pointers r.strings)
unfolding setup_user_arguments
setup_user_arguments-Placed bottom sp rows few ends room small =
    let el : length (reversed rows []) ≡ length rows = length-reversed rows [] ∙ omega arith in
    let (sp', ss, e, placed, same, far, le) =
      place_rows-Placed bottom sp sp (reversed rows []) [] [] (AllEnd-reversed rows [] ends tt)
        (omega (arith, el)) small (omega arith) tt in
    let (below, near, aligned) =
      push_down-bounds sp' ((length rows + 1) * 8) (omega (arith, el)) (omega arith) in
    (
      record { sp = push_down sp' ((length rows + 1) * 8); argv = pointers ss; strings = ss },
      rw (le→ltb_false max_args (length rows) few, e)
          (place_pointers-Placed bottom (length rows) sp' ss (omega (arith, el))),
      omega (arith, el),
      aligned,
      Placed-mono sp' _ sp ss (omega arith) placed,
      subst (λ l. SameStrings l ss) (reversed-reversed rows []) same,
      refl,
    )
