-- ===== src/Emerg/Bounds.antt =====
-- kernel/virtio-emerg.c: a line of the log fits into its buffer, and only the register of the device
-- is written.
use mathlib.Core.Option
use riscv_os.Prelude.{
  ℕ, zero, suc, ◌-◌, ◌≤◌, ◌≡◌, refl, Option, none, some, List, [], ◌∷◌, ◌++◌, ◌==◌, ◌>>=◌, arith,
  length, length-append, Bool-cases, inl, inr,
}
use riscv_os.Uart.{Arg}
use riscv_os.Format.{kvnprintf}
use riscv_os.Format.Bounds.{AtMost, kvnprintf-AtMost, length-take_le}
use riscv_os.Syscalls.Console.{without_end}
use riscv_os.Emerg.{
  Register, Stores, level_format, emerg_putc, emerg_puts, log_text, virtio_emerg_log,
}

AtMost-bind :
    (m n : ℕ) (o : Option (List ℕ)) (f : List ℕ → Option (List ℕ))
    → AtMost m o
    → ((s : List ℕ) → length s ≤ m → AtMost n (f s))
    → AtMost n (o >>= f)
AtMost-bind m n none f h k = _
AtMost-bind m n (some s) f h k = k s h

length-without_end : (out : List ℕ) → length (without_end out) ≤ length out - 1
length-without_end out = length-take_le (length out - 1) out

-- The buffer holds the whole line and its terminator.
log_text-AtMost : (level fmt : List ℕ) (args : List Arg) → AtMost 512 (log_text level fmt args)
unfolding log_text
log_text-AtMost level fmt args =
    AtMost-bind 512 512 (kvnprintf 512 level_format (Arg.string (some level) ∷ [])) _
      (kvnprintf-AtMost 512 level_format (Arg.string (some level) ∷ []) (omega arith) (omega arith))
      (λ head lh.
        let eh = length-without_end head in
        AtMost-bind (512 - length (without_end head)) 512
          (kvnprintf (512 - length (without_end head)) fmt args) _
          (kvnprintf-AtMost (512 - length (without_end head)) fmt args (omega (arith, eh, lh))
            (omega arith))
          (λ body lb.
            let eb = length-without_end body in
            let es = length-append (without_end head) (without_end body) in
            AtMost-bind (512 - length (without_end head ++ without_end body)) 512
              (kvnprintf (512 - length (without_end head ++ without_end body)) (10 ∷ 0 ∷ []) []) _
              (kvnprintf-AtMost (512 - length (without_end head ++ without_end body)) (10 ∷ 0 ∷ [])
                [] (omega (arith, eh, lh, eb, lb, es)) (omega arith))
              (λ newline ln.
                let e1 = length-append (without_end head) (without_end body ++ newline) in
                let e2 = length-append (without_end body) newline in
                omega (arith, eh, lh, eb, lb, es, ln, e1, e2))))

-- All stores go to the register.
abbrev pub OnlyAt : Register → Stores → Type 0
OnlyAt ptr [] = Unit {0}
OnlyAt ptr ((a, v) ∷ stores) = (ptr ≡ some a) × OnlyAt ptr stores

-- At most `n` stores, all to the register
abbrev pub Writes : Register → ℕ → Option Stores → Type 0
Writes ptr n none = Unit {0}
Writes ptr n (some stores) = (length stores ≤ n) × OnlyAt ptr stores

Writes-putc :
    (ptr : Register) (n c : ℕ) (o : Option Stores)
    → Writes ptr n o
    → Writes ptr (suc n) (Option.map (λ stores. emerg_putc ptr c ++ stores) o)
unfolding emerg_putc
Writes-putc ptr n c none h = _
Writes-putc none n c (some stores) (le, h) = (omega arith, h)
Writes-putc (some a) n c (some stores) (le, h) = (omega arith, (refl, h))

emerg_puts-Writes :
    (ptr : Register) (buf : List ℕ) (n : ℕ) → length buf ≤ suc n → Writes ptr n (emerg_puts ptr buf)
unfolding emerg_puts
emerg_puts-Writes ptr [] n h = _
emerg_puts-Writes ptr (c ∷ []) n h = elim (Bool-cases (c == 0)) [
  | inl e ↦ rw e (omega arith, _)
  | inr e ↦ rw e _
]
emerg_puts-Writes ptr (c ∷ d ∷ s) zero h = absurd (omega (arith, h))
emerg_puts-Writes ptr (c ∷ d ∷ s) (suc n) h = elim (Bool-cases (c == 0)) [
  | inl e ↦ rw e (omega arith, _)
  | inr e ↦
      rw e (
        Writes-putc ptr n c (emerg_puts ptr (d ∷ s))
          (emerg_puts-Writes ptr (d ∷ s) n (omega arith)))
]

Writes-bind :
    (ptr : Register) (o : Option (List ℕ))
    → AtMost 512 o
    → Writes ptr 511 (o >>= λ buf. emerg_puts ptr buf)
Writes-bind ptr none h = _
Writes-bind ptr (some buf) h = emerg_puts-Writes ptr buf 511 h

-- A line of the kernel's log, whatever its level, its format and its arguments are, is cut off in
-- its buffer of 512 bytes: if no argument is missing, it makes at most 511 stores, and every one of them goes to the register
-- of the emergency console that was found.
pub virtio_emerg_log-Writes :
    (ptr : Register) (level fmt : List ℕ) (args : List Arg)
    → Writes ptr 511 (virtio_emerg_log ptr level fmt args)
unfolding virtio_emerg_log
virtio_emerg_log-Writes ptr level fmt args =
    Writes-bind ptr (log_text level fmt args) (log_text-AtMost level fmt args)
