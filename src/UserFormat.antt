-- ===== src/UserFormat.antt =====
-- user/lib/common.c and user/lib/log.c, at addresses of the memory of Strings. An argument is its 64
-- bits, so that a string is its address. The texts of numbers stand in an object of their own, whose
-- loops are those of Format; `none` is an argument that is not there.
pub mod Inside
mod Tests
use mathlib.Core.Option
use riscv_os.Prelude.{
  u64, ℕ, zero, suc, ◌+◌, ◌-◌, ◌%◌, ◌^◌, ℤ, pos, negsuc, Bool, true, false, not, ◌&&◌, ◌||◌, Option,
  none, some, List, [], ◌∷◌, leb, ltb, ◌==◌, if◌then◌else◌, ◌>>=◌,
}
use riscv_os.Format
use riscv_os.Format.{itoa_loop}
use riscv_os.Strings.{Bytes, put, strncpy, strstr, strcmp}

-- The bytes of a text, and a terminator
unfoldable pub put_text : Bytes → ℕ → List ℕ → Bytes
unfolding put
put_text m str [] = put m str 0
put_text m str (c ∷ s) = put_text (put m str c) (str + 1) s

unfoldable pub itoa_unsigned : Bytes → (value str base : ℕ) → Option Bytes
unfolding put_text
itoa_unsigned m value str base =
    if ltb base 2 || ltb 16 base
    then some (put m str 0)
    else (itoa_loop base 33 value [] >>= λ text. some (put_text m str text))

-- An `int` is given by its 32 bits.
unfoldable pub itoa_signed : Bytes → (value str base : ℕ) → Option Bytes
unfolding itoa_unsigned
itoa_signed m value str base =
    if ltb base 2 || ltb 16 base
    then some (put m str 0)
    else if leb (2 ^ 31) value && base == 10
    then itoa_unsigned (put m str b'-') ((2 ^ 32 - value) % 2 ^ 32) (str + 1) base
    else itoa_unsigned m value str base

-- The memory, and `i`
pub record Run : Type 0 where
  pub memory : Bytes
  pub index : ℕ

-- `buf[i++] = c`
unfoldable pub emit : ℕ → ℕ → Run → Run
unfolding put
emit buf c r = record { memory = put r.memory (buf + r.index) c; index = r.index + 1 }

-- `top` is `size - 1`, whose subtraction wraps.
unfoldable pub emit_if : ℕ → ℕ → ℕ → Run → Run
unfolding emit
emit_if top buf c r = if ltb r.index top then emit buf c r else r

-- The loop over the text of a number
unfoldable pub copy_tmp : ℕ → ℕ → List ℕ → Run → Run
unfolding emit
copy_tmp top buf [] r = r
copy_tmp top buf (c ∷ s) r =
    let rest = copy_tmp top buf s (emit buf c r) in if ltb r.index top then rest else r

-- The loop over a string, with fuel; the Boolean says that it has ended.
unfoldable pub copy_string : ℕ → ℕ → ℕ → ℕ → Run → Run × Bool
unfolding emit
copy_string zero top buf s r = (r, false)
copy_string (suc fuel) top buf s r =
    let rest = copy_string fuel top buf (s + 1) (emit buf (r.memory s) r) in
    if r.memory s == 0 || not (ltb r.index top) then (r, true) else rest

abbrev pub takes_argument : ℕ → Bool
takes_argument c =
    c == b's' || (c == b'd' || (c == b'u' || (c == b'x' || (c == b'p' || c == b'c'))))

-- The case of a conversion that takes an argument.
unfoldable pub convert_value : ℕ → ℕ → ℕ → (spec v : ℕ) → Run → Option (Run × Bool)
unfolding copy_string copy_tmp emit emit_if
convert_value fuel top buf spec v r =
    let low = v % 2 ^ 32 in
    let prefixed = emit_if top buf b'x' (emit buf b'0' r) in
    if spec == b's'
    then some (if v == 0 then (r, true) else copy_string fuel top buf v r)
    else if spec == b'd'
    then (Format.itoa_signed low 10 >>= λ tmp. some (copy_tmp top buf tmp r, true))
    else if spec == b'u'
    then (Format.itoa_unsigned low 10 >>= λ tmp. some (copy_tmp top buf tmp r, true))
    else if spec == b'x'
    then (Format.itoa_unsigned low 16 >>= λ tmp. some (copy_tmp top buf tmp r, true))
    else if spec == b'p'
    then (Format.itoa_unsigned low 16 >>= λ tmp. some (copy_tmp top buf tmp prefixed, true))
    else some (emit buf (v % 256) r, true)

-- The other cases
unfoldable pub convert_other : ℕ → ℕ → ℕ → Run → Run
unfolding emit emit_if
convert_other top buf spec r =
    if spec == b'%' then emit buf b'%' r else emit_if top buf spec (emit buf b'%' r)

-- The outer loop, with one unit of fuel for each round, and the terminator behind it.
unfoldable pub format_while : ℕ → ℕ → ℕ → ℕ → List ℕ → Run → Option (Run × Bool)
unfolding emit convert_other convert_value put
format_while zero top buf fmt args r = some (r, false)
format_while (suc fuel) top buf fmt args r =
    let spec = r.memory (fmt + 1) in
    let next = format_while fuel top buf (fmt + 1) args (emit buf (r.memory fmt) r) in
    let other = format_while fuel top buf (fmt + 2) args (convert_other top buf spec r) in
    if r.memory fmt == 0 || not (ltb r.index top)
    then some (record r { memory = put r.memory (buf + r.index) 0 }, true)
    else if not (r.memory fmt == b'%' && not (spec == 0))
    then next
    else if not (takes_argument spec)
    then other
    else elim args [
      | [] ↦ none
      | v ∷ args' ↦ convert_value fuel top buf spec v r >>= λ (r', ended).
          if ended then format_while fuel top buf (fmt + 2) args' r' else some (r', false)
    ]

-- `size - 1`
abbrev pub last_index : ℕ → ℕ
last_index size = u64 (size + (2 ^ 64 - 1))

unfoldable pub kvnprintf : ℕ → Bytes → (buf size fmt : ℕ) → List ℕ → Option (Run × Bool)
unfolding format_while
kvnprintf fuel m buf size fmt args =
    format_while fuel (last_index size) buf fmt args (record { memory = m; index = 0 })

-- A comparison that is 0
abbrev pub is_equal : ℤ → Bool
is_equal (pos n) = n == 0
is_equal (negsuc n) = false

-- The text `".elf"` of the program stands at `dot_elf`, and 0 is a null pointer.
unfoldable pub strip_elf_extension :
    ℕ → (dot_elf : ℕ) → Bytes → (progname out_name maxlen : ℕ) → Option Bytes
unfolding strncpy strstr strcmp put
strip_elf_extension fuel dot_elf m progname out_name maxlen =
    if progname == 0 || (out_name == 0 || maxlen == 0)
    then some m
    else (let m' = put (strncpy m out_name progname (maxlen - 1)) (out_name + (maxlen - 1)) 0 in
        strstr fuel m' out_name dot_elf >>= λ found. elim found [
          | none ↦ some m'
          | some dot ↦ strcmp fuel m' dot dot_elf >>= λ order.
              some (if is_equal order then put m' dot 0 else m')
        ])

-- user/lib/log.c: the buffer of 256 bytes lies at `buf`; the line is given to SYS_LOG.
unfoldable pub ulog : ℕ → Bytes → (buf fmt : ℕ) → List ℕ → Option (Run × Bool)
unfolding kvnprintf
ulog fuel m buf fmt args = kvnprintf fuel m buf 256 fmt args
