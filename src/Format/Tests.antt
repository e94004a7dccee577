-- ===== src/Format/Tests.antt =====
-- kernel/common.c at concrete formats.
use riscv_os.Prelude.{ℕ, ◌≡◌, refl, some, List, [], ◌∷◌, arith}
use riscv_os.Uart.{number}
use riscv_os.Uart.Digits.{decimal}
use riscv_os.Format.{itoa_unsigned, kvnprintf}
use riscv_os.Format.Bounds.{AtMost, kvnprintf-AtMost, itoa_unsigned-decimal}

-- "pid %d"
abbrev pid_format : List ℕ
pid_format = b'p' ∷ b'i' ∷ b'd' ∷ b' ' ∷ b'%' ∷ b'd' ∷ 0 ∷ []

kvnprintf-AtMost_example : AtMost 6 (kvnprintf 6 pid_format (number 12 ∷ []))
kvnprintf-AtMost_example =
    kvnprintf-AtMost 6 pid_format (number 12 ∷ []) (omega arith) (omega arith)

-- One digit is cut off.
cut : kvnprintf 6 pid_format (number 12 ∷ []) ≡ some (b'p' ∷ b'i' ∷ b'd' ∷ b' ' ∷ b'1' ∷ 0 ∷ [])
unfolding kvnprintf
cut = refl

itoa_unsigned-decimal_example :
    (s : List ℕ) × (itoa_unsigned 4711 10 ≡ some s) × (decimal 0 s ≡ 4711)
itoa_unsigned-decimal_example = itoa_unsigned-decimal 4711 (omega arith)
