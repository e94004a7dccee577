-- ===== src/Shell/Tests.antt =====
-- user/shell.c at concrete keys and lines.
use riscv_os.Prelude.{
  ℕ, ◌≡◌, refl, ◌+◌, true, false, none, some, List, [], ◌∷◌, ◌++◌, arith, take, replicate,
}
use riscv_os.Text.{strcpy, strcat}
use riscv_os.Text.Compare.{IsText}
use riscv_os.Text.Words.{words}
use riscv_os.Text.Cut.{cut}
use riscv_os.Shell.{Action, read_line, tokenize, run_line, elf_text}
use riscv_os.Shell.Editor.{Reads, read_line-Reads}
use riscv_os.Shell.Rounds.{strings_at}
use riscv_os.Shell.Command.{tokenize-words}

-- `lx`, backspace, `s`, ENTER and another key
abbrev keys : List ℕ
keys = b'l' ∷ b'x' ∷ 8 ∷ b's' ∷ 13 ∷ b'p' ∷ []

read_line-Reads_example :
    Reads
      (read_line keys (record { line = replicate 128 7; pos = 0 }))
      (some (b'l' ∷ b's' ∷ [], b'p' ∷ []))
read_line-Reads_example = read_line-Reads keys (replicate 128 7) refl

-- ` ls  -a `
abbrev typed : List ℕ
typed = b' ' ∷ b'l' ∷ b's' ∷ b' ' ∷ b' ' ∷ b'-' ∷ b'a' ∷ b' ' ∷ []

typed-IsText : IsText typed
typed-IsText = (
  omega arith,
  (
    omega arith,
    (omega arith, (omega arith, (omega arith, (omega arith, (omega arith, (omega arith, tt)))))),
  ),
)

tokenize-words_example :
    (argv text : List ℕ) × (tokenize 8
        (some 0)
        (record { text = typed ++ 0 ∷ 9 ∷ []; saved = none })
      ≡ some (argv, text))
    × (strings_at text argv ≡ take 8 (words typed))
    × (text ≡ cut (8 + 1) false typed ++ 0 ∷ 9 ∷ [])
tokenize-words_example = tokenize-words 8 typed (9 ∷ []) typed-IsText

-- `shell` is refused, and ` shell` is started.
abbrev shell_line : List ℕ
shell_line = b's' ∷ b'h' ∷ b'e' ∷ b'l' ∷ b'l' ∷ 0 ∷ []

shell_refused :
    run_line (λ name. true) (shell_line ++ replicate 122 0)
    ≡ some (Action.refuse (shell_line ++ replicate 122 0))
unfolding run_line
shell_refused = refl

shell_started :
    run_line (λ name. true) (b' ' ∷ (shell_line ++ replicate 121 0))
    ≡ some (
        Action.start
          (take 5 shell_line ++ (elf_text ++ replicate 126 0))
          (1 ∷ [])
          (b' ' ∷ (shell_line ++ replicate 121 0)))
unfolding run_line strcpy strcat
shell_started = refl
