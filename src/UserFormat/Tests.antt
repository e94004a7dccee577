-- ===== src/UserFormat/Tests.antt =====
-- user/lib/common.c at small memories.
use mathlib.Core.Option
use riscv_os.Prelude.{ℕ, ◌<◌, ◌≡◌, refl, Bool, some, List, [], ◌∷◌, arith, get_or}
use riscv_os.Strings.{Bytes}
use riscv_os.Strings.Copied.{SameOutside}
use riscv_os.Traps.Invariant.{OnSome}
use riscv_os.UserFormat.{Run, kvnprintf, strip_elf_extension}
use riscv_os.UserFormat.Inside.{kvnprintf-Inside}

-- `"n=%d!"` at 1
abbrev memory : Bytes
memory p = get_or (7 ∷ b'n' ∷ b'=' ∷ b'%' ∷ b'd' ∷ b'!' ∷ 0 ∷ 7 ∷ []) p 9

kvnprintf-Inside_example :
    OnSome
      (λ (r, ended). (r.index < 5) × SameOutside memory r.memory 20 5)
      (kvnprintf 6 memory 20 5 1 (42 ∷ []))
kvnprintf-Inside_example = kvnprintf-Inside 6 memory 20 5 1 (42 ∷ []) (omega arith) (omega arith)

-- The line is cut off behind `"n=42"`.
abbrev shown : Run × Bool → List ℕ
shown (r, ended) = let m = r.memory in m 19 ∷ m 20 ∷ m 21 ∷ m 22 ∷ m 23 ∷ m 24 ∷ m 25 ∷ r.index ∷ []

cut_off :
    Option.map shown (kvnprintf 6 memory 20 5 1 (42 ∷ []))
    ≡ some (9 ∷ b'n' ∷ b'=' ∷ b'4' ∷ b'2' ∷ 0 ∷ 9 ∷ 4 ∷ [])
unfolding kvnprintf riscv_os.Format.itoa_signed
cut_off = refl

-- `"ls.elf"` at 1 and `".elf"` at 8
abbrev names : Bytes
names p =
    get_or (7 ∷ b'l' ∷ b's' ∷ b'.' ∷ b'e' ∷ b'l' ∷ b'f' ∷ 0 ∷ b'.' ∷ b'e' ∷ b'l' ∷ b'f' ∷ 0 ∷ []) p
      9

stripped :
    Option.map (λ m. m 20 ∷ m 21 ∷ m 22 ∷ []) (strip_elf_extension 9 8 names 1 20 8)
    ≡ some (b'l' ∷ b's' ∷ 0 ∷ [])
unfolding strip_elf_extension
stripped = refl
