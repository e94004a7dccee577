-- ===== src/Shell.antt =====
-- user/shell.c: the line editor, the arguments, and what the shell does with a command. Input is the
-- list of the bytes that `read` returns, output the list of the bytes for the console. The calls of
-- the kernel are data, in their order.
pub mod Editor
pub mod Rounds
pub mod Command
mod Tests
use riscv_os.Prelude.{
  ℕ, zero, suc, ◌+◌, ◌-◌, ℤ, pos, negsuc, Bool, true, false, ◌&&◌, ◌||◌, Option, none, some, List,
  [], ◌∷◌, ◌++◌, ltb, ◌==◌, if◌then◌else◌, ◌>>=◌, set, replicate, drop,
}
use riscv_os.Text.{strcmp, strcpy, strcat}
use riscv_os.Text.Token.{Strtok, strtok}

abbrev pub maxline : ℕ
maxline = 128

abbrev pub max_args : ℕ
max_args = 8

-- `line` and `pos`
pub record Line : Type 0 where
  pub line : List ℕ
  pub pos : ℕ

abbrev pub is_enter : ℕ → Bool
is_enter c = c == 13 || c == 10

abbrev pub is_backspace : ℕ → Bool
is_backspace c = c == 0x7f || c == 8

-- One round of the loop for a key that is not ENTER: the line, and what is printed behind the echo.
unfoldable pub edit : ℕ → Line → List ℕ × Line
edit c l =
    if is_backspace c && ltb 0 l.pos
    then (8 ∷ 32 ∷ 8 ∷ [], record l { pos = l.pos - 1 })
    else if ltb l.pos (maxline - 1)
    then ([], record { line = set l.line l.pos c; pos = l.pos + 1 })
    else ([], l)

-- What the loop returns: the line with its terminator, the input that is left, and the output. It is
-- `none` while ENTER has not been pressed.
pub record Entered : Type 0 where
  pub line : List ℕ
  pub input : List ℕ
  pub output : List ℕ

unfoldable pub read_line : List ℕ → Line → Option Entered
unfolding edit
read_line [] l = none
read_line (c ∷ cs) l =
    let (out, l') = edit c l in
    let rest = read_line cs l' in
    if is_enter c
    then some (record { line = set l.line l.pos 0; input = cs; output = c ∷ 10 ∷ [] })
    else (rest >>= λ r. some (record r { output = c ∷ (out ++ r.output) }))

abbrev pub delimiter : List ℕ
delimiter = b' ' ∷ 0 ∷ []

-- Step 4b with room for `n` arguments: a call of `strtok`, and the loop over its result. The positions
-- of the arguments, and the line. Behind the last argument that there is room for comes one more call.
unfoldable pub tokenize : ℕ → Option ℕ → Strtok → Option (List ℕ × List ℕ)
unfolding strtok
tokenize zero start s = strtok start delimiter s >>= λ (token, s'). some ([], s'.text)
tokenize (suc n) start s = strtok start delimiter s >>= λ (token, s'). elim token [
  | none ↦ some ([], s'.text)
  | some p ↦ tokenize n none s' >>= λ (argv, text). some (p ∷ argv, text)
]

abbrev pub clear_text : List ℕ
clear_text = b'c' ∷ b'l' ∷ b'e' ∷ b'a' ∷ b'r' ∷ 0 ∷ []

abbrev pub help_text : List ℕ
help_text = b'h' ∷ b'e' ∷ b'l' ∷ b'p' ∷ 0 ∷ []

-- The programs of step 5c: shell, idle, init, test_shell, window_server, testa, testb
abbrev pub reserved_texts : List (List ℕ)
reserved_texts =
    (b's' ∷ b'h' ∷ b'e' ∷ b'l' ∷ b'l' ∷ 0 ∷ [])
    ∷ (b'i' ∷ b'd' ∷ b'l' ∷ b'e' ∷ 0 ∷ [])
    ∷ (b'i' ∷ b'n' ∷ b'i' ∷ b't' ∷ 0 ∷ [])
    ∷ (b't' ∷ b'e' ∷ b's' ∷ b't' ∷ b'_' ∷ b's' ∷ b'h' ∷ b'e' ∷ b'l' ∷ b'l' ∷ 0 ∷ [])
    ∷ (b'w' ∷ b'i' ∷ b'n' ∷ b'd' ∷ b'o' ∷ b'w' ∷ b'_' ∷ b's' ∷ b'e' ∷ b'r' ∷ b'v' ∷ b'e' ∷ b'r' ∷ 0
        ∷ [])
    ∷ (b't' ∷ b'e' ∷ b's' ∷ b't' ∷ b'a' ∷ 0 ∷ [])
    ∷ (b't' ∷ b'e' ∷ b's' ∷ b't' ∷ b'b' ∷ 0 ∷ [])
    ∷ []

abbrev pub elf_text : List ℕ
elf_text = b'.' ∷ b'e' ∷ b'l' ∷ b'f' ∷ 0 ∷ []

abbrev equal_texts : ℤ → Bool
equal_texts (pos zero) = true
equal_texts d = false

-- `!strcmp(line, name)`
unfoldable pub is_command : List ℕ → List ℕ → Option Bool
unfolding strcmp
is_command line name = strcmp line name >>= λ d. some (equal_texts d)

unfoldable pub is_reserved : List (List ℕ) → List ℕ → Option Bool
unfolding is_command
is_reserved [] line = some false
is_reserved (name ∷ names) line =
    is_command line name >>= λ same. if same then some true else is_reserved names line

-- What the shell does with a line: nothing; the screen is cleared and the title shown; the help; that
-- a command is not allowed or not found; the start of a program from a file, with its arguments as
-- positions in the line.
pub data Action : Type 0 where
  skip clear help : Action
  refuse not_found : (line : List ℕ) → Action
  start : (filename argv line : List ℕ) → Action

-- Steps 6 and 7 up to the `fork`, for `argv[0]` at `p`.
unfoldable pub find_program : (List ℕ → Bool) → ℕ → List ℕ → List ℕ → Option Action
find_program tarfs_exists p argv line = strcpy (replicate (maxline + 8) 0) (drop p line) >>= λ name.
    strcat name elf_text >>= λ filename.
    some (if tarfs_exists filename then start filename argv line else not_found line)

-- Steps 5 to 7 for the arguments and the line that `strtok` leaves.
unfoldable pub choose : (List ℕ → Bool) → List ℕ → List ℕ → Option Action
unfolding is_command is_reserved find_program
choose tarfs_exists [] line = some skip
choose tarfs_exists (p ∷ argv) line = is_command line clear_text >>= λ is_clear.
    if is_clear
    then some clear
    else (is_command line help_text >>= λ is_help.
        if is_help
        then some help
        else (is_reserved reserved_texts line >>= λ refused.
            if refused then some (refuse line) else find_program tarfs_exists p (p ∷ argv) line))

-- Steps 3 to 7 for a line.
unfoldable pub run_line : (List ℕ → Bool) → List ℕ → Option Action
unfolding tokenize choose
run_line tarfs_exists [] = none
run_line tarfs_exists (c ∷ cs) =
    if c == 0
    then some skip
    else (tokenize max_args (some 0) (record { text = c ∷ cs; saved = none }) >>= λ (argv, line).
        choose tarfs_exists argv line)

-- The calls behind `fork`, for the pid it returns: `exec` returns only on an error.
pub data Call : Type 0 where
  exec : (filename argv line : List ℕ) → Call
  say : List ℕ → Call
  exit : ℕ → Call
  wait : Call

abbrev pub exec_failed : List ℕ
exec_failed =
    b'[' ∷ b's' ∷ b'h' ∷ b'e' ∷ b'l' ∷ b'l' ∷ b']' ∷ b' ' ∷ b'e' ∷ b'x' ∷ b'e' ∷ b'c' ∷ b' ' ∷ b'f'
    ∷ b'a' ∷ b'i' ∷ b'l' ∷ b'e' ∷ b'd' ∷ 10 ∷ []

abbrev pub fork_failed : List ℕ
fork_failed =
    b'[' ∷ b's' ∷ b'h' ∷ b'e' ∷ b'l' ∷ b'l' ∷ b']' ∷ b' ' ∷ b'f' ∷ b'o' ∷ b'r' ∷ b'k' ∷ b' ' ∷ b'f'
    ∷ b'a' ∷ b'i' ∷ b'l' ∷ b'e' ∷ b'd' ∷ 10 ∷ []

unfoldable pub after_fork : ℤ → (filename argv line : List ℕ) → List Call
after_fork (pos zero) filename argv line = exec filename argv line ∷ say exec_failed ∷ exit 1 ∷ []
after_fork (pos (suc pid)) filename argv line = wait ∷ []
after_fork (negsuc n) filename argv line = say fork_failed ∷ []
