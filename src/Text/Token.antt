-- ===== src/Text/Token.antt =====
-- kernel/string.c and user/lib/string.c: `strtok`. It keeps a place in the text between its calls, so
-- a pointer is here a position in the object that holds the text, and `none` as a position is null.
use mathlib.Core.Option
use riscv_os.Prelude.{
  ℕ, suc, ◌+◌, Bool, true, false, Option, none, some, List, [], ◌∷◌, ◌==◌, if◌then◌else◌, ◌>>=◌,
  get_elem?, drop, set,
}
use riscv_os.Text.{strchr}

-- `strchr(delim, c)` is not null.
unfoldable pub is_delim : List ℕ → ℕ → Option Bool
unfolding strchr
is_delim delim c = elim (strchr delim c) [
  | none ↦ none
  | some none ↦ some false
  | some (some i) ↦ some true
]

-- The loop over leading delimiters, and the one over the token: how far they move `saved`.
unfoldable pub skip_delims : List ℕ → List ℕ → Option ℕ
unfolding is_delim
skip_delims delim [] = none
skip_delims delim (c ∷ s) =
    let rest = skip_delims delim s in
    if c == 0 then some 0 else elim (is_delim delim c) [
      | none ↦ none
      | some true ↦ Option.map suc rest
      | some false ↦ some 0
    ]

unfoldable pub token_end : List ℕ → List ℕ → Option ℕ
unfolding is_delim
token_end delim [] = none
token_end delim (c ∷ s) =
    let rest = token_end delim s in
    if c == 0 then some 0 else elim (is_delim delim c) [
      | none ↦ none
      | some true ↦ some 0
      | some false ↦ Option.map suc rest
    ]

-- The object, and `saved`.
pub record Strtok : Type 0 where
  pub text : List ℕ
  pub saved : Option ℕ

-- From the token at `q`, whose end is at `e`.
unfoldable pub end_token : ℕ → ℕ → List ℕ → Option (Option ℕ × Strtok)
end_token q e text = get_elem? text e >>= λ c.
    if c == 0
    then some (some q, record { text = text; saved = none })
    else some (some q, record { text = set text e 0; saved = some (e + 1) })

unfoldable pub next_token : List ℕ → ℕ → List ℕ → Option (Option ℕ × Strtok)
unfolding end_token token_end skip_delims
next_token delim p text = skip_delims delim (drop p text) >>= λ n. get_elem? text (p + n) >>= λ c.
    if c == 0
    then some (none, record { text = text; saved = some (p + n) })
    else (token_end delim (drop (p + n) text) >>= λ m. end_token (p + n) (p + n + m) text)

-- `str` is a position, or null to go on.
abbrev pub start_at : Option ℕ → Option ℕ → Option ℕ
start_at (some p) saved = some p
start_at none saved = saved

unfoldable pub strtok : Option ℕ → List ℕ → Strtok → Option (Option ℕ × Strtok)
unfolding next_token
strtok str delim s = elim (start_at str s.saved) [
  | none ↦ some (none, record s { saved = none })
  | some p ↦ next_token delim p s.text
]
