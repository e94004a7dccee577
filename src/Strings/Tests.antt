-- ===== src/Strings/Tests.antt =====
-- user/lib/string.c at small memories.
use riscv_os.Prelude.{
  ℕ, ◌+◌, ◌<◌, ◌≡◌, ◌≢◌, refl, inl, none, some, List, [], ◌∷◌, ◌++◌, arith, get_or, length,
}
use riscv_os.Text
use riscv_os.Text.Token.{Strtok}
use riscv_os.Text.Compare.{IsText}
use riscv_os.Strings.{Bytes, memcpy, Token, strtok}
use riscv_os.Strings.Copied.{SameOutside, memcpy-SameOutside}
use riscv_os.Strings.Tokens.{pointer, Agrees, strtok-Agrees}

-- `"ab c"` at 1, `"de"` at 9, and `" "` at 12
abbrev memory : Bytes
memory p =
    get_or (7 ∷ b'a' ∷ b'b' ∷ b' ' ∷ b'c' ∷ 0 ∷ 7 ∷ 7 ∷ 7 ∷ b'd' ∷ b'e' ∷ 0 ∷ b' ' ∷ 0 ∷ 7 ∷ []) p 0

memcpy-SameOutside_example :
    ((i : ℕ) → i < 4 → memcpy memory 1 2 4 (1 + i) ≡ memory (2 + i))
    × SameOutside memory (memcpy memory 1 2 4) 1 4
memcpy-SameOutside_example = memcpy-SameOutside memory 1 2 4 (inl (omega arith))

abbrev first_text : List ℕ
first_text = b'a' ∷ b'b' ∷ b' ' ∷ b'c' ∷ []

abbrev second_text : List ℕ
second_text = b'd' ∷ b'e' ∷ []

first_text-IsText : IsText first_text
first_text-IsText = ground arith

second_text-IsText : IsText second_text
second_text-IsText = ground arith

abbrev start : Strtok
start = record { text = first_text ++ 0 ∷ []; saved = none }

-- The first token, `"ab"`; the next call begins at `"c"`.
abbrev first_token : Strtok
first_token = record { text = b'a' ∷ b'b' ∷ 0 ∷ b'c' ∷ 0 ∷ []; saved = some 3 }

strtok_list : Text.Token.strtok (some 0) (b' ' ∷ 0 ∷ []) start ≡ some (some 0, first_token)
unfolding Text.Token.strtok
strtok_list = refl

one_ne : ◌≢◌ {A = ℕ} 1 0
one_ne e = omega (arith, e)

strtok-Agrees_example :
    (r : Token) × (strtok 5 memory (pointer 1 none) (pointer 1 (some 0)) 12 ≡ some r)
    × Agrees memory 1 (length start.text) (some 0, first_token) r
strtok-Agrees_example =
    strtok-Agrees 5 memory 1 12 (b' ' ∷ 0 ∷ []) (some 0) start (some 0, first_token) one_ne
      (refl, (refl, (refl, (refl, (refl, _))))) (refl, (refl, _)) (omega arith) (omega arith)
      strtok_list
