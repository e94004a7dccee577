-- ===== src/UserFormat/Inside.antt =====
-- user/lib/common.c: `kvnprintf` never writes outside its buffer.
use riscv_os.Prelude.{
  ℕ, zero, suc, ◌+◌, ◌%◌, ◌^◌, ◌≤◌, ◌<◌, ◌≡◌, ◌≢◌, refl, subst, ◌∙◌, Bool, true, false, not, ◌&&◌,
  ◌||◌, Option, none, some, List, [], ◌∷◌, ltb, ◌==◌, if◌then◌else◌, ◌>>=◌, arith, Bool-cases, inl,
  inr, ltb→lt,
}
use riscv_os.Format
use riscv_os.Strings.{Bytes, put}
use riscv_os.Strings.Held.{Outside, put-ne}
use riscv_os.Strings.Copied.{SameOutside}
use riscv_os.Traps.Invariant.{OnSome, on, stopped, if-OnSome}
use riscv_os.UserFormat.{
  Run, emit, emit_if, copy_tmp, copy_string, takes_argument, convert_value, convert_other,
  format_while, last_index, kvnprintf,
}

-- The index is at most that of the buffer's last byte, and no byte outside the buffer has changed.
abbrev pub Inside : Bytes → ℕ → ℕ → Run → Type 0
Inside m top buf r = (r.index ≤ top) × SameOutside m r.memory buf (suc top)

abbrev InsideFirst : Bytes → ℕ → ℕ → Run × Bool → Type 0
InsideFirst m top buf (r, ended) = Inside m top buf r

put-SameOutside :
    (m m' : Bytes) (buf top i c : ℕ)
    → i ≤ top
    → SameOutside m m' buf (suc top)
    → SameOutside m (put m' (buf + i) c) buf (suc top)
put-SameOutside m m' buf top i c le h a o = put-ne m' (buf + i) c a (away o) ∙ h a o
  where
    away : Outside a buf (suc top) → a ≢ buf + i
    away (inl lt) e = omega (arith, lt, e)
    away (inr ge) e = omega (arith, ge, e, le)

then-OnSome :
    {A B : Type 0} {P : A → Type 0} {Q : B → Type 0} {o : Option A} {f : A → Option B}
    → OnSome P o
    → ((a : A) → P a → OnSome Q (f a))
    → OnSome Q (o >>= f)
then-OnSome stopped k = stopped
then-OnSome (on h) k = k _ h

args-OnSome :
    {B : Type 0} {Q : B → Type 0} (args : List ℕ) (g : ℕ → List ℕ → Option B)
    → ((v : ℕ) (args' : List ℕ) → OnSome Q (g v args'))
    → OnSome Q (elim args [ [] ↦ none | v ∷ args' ↦ g v args' ])
args-OnSome [] g h = stopped
args-OnSome (v ∷ args') g h = h v args'

module _ (m : Bytes) (top buf : ℕ) where
  emit-Inside :
      (c : ℕ) (r : Run) → r.index < top → Inside m top buf r → Inside m top buf (emit buf c r)
  unfolding emit
  emit-Inside c r lt (le, h) =
      (omega (arith, lt), put-SameOutside m r.memory buf top r.index c le h)

  emit_if-Inside : (c : ℕ) (r : Run) → Inside m top buf r → Inside m top buf (emit_if top buf c r)
  unfolding emit_if
  emit_if-Inside c r h = elim (Bool-cases (ltb r.index top)) [
    | inl e ↦ rw e (emit-Inside c r (ltb→lt r.index top e) h)
    | inr e ↦ rw e h
  ]

  copy_tmp-Inside :
      (s : List ℕ) (r : Run) → Inside m top buf r → Inside m top buf (copy_tmp top buf s r)
  unfolding copy_tmp
  copy_tmp-Inside [] r h = h
  copy_tmp-Inside (c ∷ s) r h = elim (Bool-cases (ltb r.index top)) [
    | inl e ↦ rw e (copy_tmp-Inside s (emit buf c r) (emit-Inside c r (ltb→lt r.index top e) h))
    | inr e ↦ rw e h
  ]

  copy_string-Inside :
      (fuel s : ℕ) (r : Run)
      → Inside m top buf r
      → InsideFirst m top buf (copy_string fuel top buf s r)
  unfolding copy_string
  copy_string-Inside zero s r h = h
  copy_string-Inside (suc fuel) s r h =
      elim (Bool-cases (r.memory s == 0 || not (ltb r.index top))) [
        | inl e ↦ rw e h
        | inr e ↦ rw e (
            copy_string-Inside fuel (s + 1) (emit buf (r.memory s) r)
              (emit-Inside (r.memory s) r (room (r.memory s == 0) r.index top e) h))
      ]
    where
      room : (b : Bool) (i n : ℕ) → (b || not (ltb i n)) ≡ false → i < n
      room b i n e = ground arith

  tmp-Inside :
      (o : Option (List ℕ)) (r : Run)
      → Inside m top buf r
      → OnSome (InsideFirst m top buf) (o >>= λ tmp. some (copy_tmp top buf tmp r, true))
  tmp-Inside none r h = stopped
  tmp-Inside (some tmp) r h = on (copy_tmp-Inside tmp r h)

  string-Inside :
      (fuel v : ℕ) (r : Run)
      → Inside m top buf r
      → InsideFirst m top buf (if v == 0 then (r, true) else copy_string fuel top buf v r)
  string-Inside fuel v r h = elim (Bool-cases (v == 0)) [
    | inl e ↦ rw e h
    | inr e ↦ rw e (copy_string-Inside fuel v r h)
  ]

  convert_value-Inside :
      (fuel spec v : ℕ) (r : Run)
      → r.index < top
      → Inside m top buf r
      → OnSome (InsideFirst m top buf) (convert_value fuel top buf spec v r)
  unfolding convert_value
  convert_value-Inside fuel spec v r lt h =
      if-OnSome (spec == b's') _ _ (on (string-Inside fuel v r h)) (
        if-OnSome (spec == b'd') _ _ (tmp-Inside (Format.itoa_signed (v % 2 ^ 32) 10) r h) (
          if-OnSome (spec == b'u') _ _ (tmp-Inside (Format.itoa_unsigned (v % 2 ^ 32) 10) r h) (
            if-OnSome (spec == b'x') _ _ (tmp-Inside (Format.itoa_unsigned (v % 2 ^ 32) 16) r h) (
              if-OnSome (spec == b'p') _ _
                (tmp-Inside (Format.itoa_unsigned (v % 2 ^ 32) 16) _
                  (emit_if-Inside b'x' (emit buf b'0' r) (emit-Inside b'0' r lt h)))
                (on (emit-Inside (v % 256) r lt h))))))

  convert_other-Inside :
      (spec : ℕ) (r : Run)
      → r.index < top
      → Inside m top buf r
      → Inside m top buf (convert_other top buf spec r)
  unfolding convert_other
  convert_other-Inside spec r lt h = elim (Bool-cases (spec == b'%')) [
    | inl e ↦ rw e (emit-Inside b'%' r lt h)
    | inr e ↦ rw e (emit_if-Inside spec (emit buf b'%' r) (emit-Inside b'%' r lt h))
  ]

  format_while-Inside :
      (fuel fmt : ℕ) (args : List ℕ) (r : Run)
      → Inside m top buf r
      → OnSome (InsideFirst m top buf) (format_while fuel top buf fmt args r)
  unfolding format_while
  format_while-Inside zero fmt args r h = on h
  format_while-Inside (suc fuel) fmt args r h =
      elim (Bool-cases (r.memory fmt == 0 || not (ltb r.index top))) [
        | inl e ↦ rw e (on (h.0, put-SameOutside m r.memory buf top r.index 0 h.0 h.1))
        | inr e ↦
            let lt : r.index < top = room (r.memory fmt == 0) r.index top e in
            rw e (
              if-OnSome (not (r.memory fmt == b'%' && not (r.memory (fmt + 1) == 0))) _ _
                (format_while-Inside fuel (fmt + 1) args (emit buf (r.memory fmt) r)
                  (emit-Inside (r.memory fmt) r lt h))
                (if-OnSome (not (takes_argument (r.memory (fmt + 1)))) _ _
                  (format_while-Inside fuel (fmt + 2) args
                    (convert_other top buf (r.memory (fmt + 1)) r)
                    (convert_other-Inside (r.memory (fmt + 1)) r lt h))
                  (args-OnSome args
                    (λ v args'.
                      convert_value fuel top buf (r.memory (fmt + 1)) v r >>= λ (r', ended).
                      if ended
                      then format_while fuel top buf (fmt + 2) args' r'
                      else some (r', false))
                    (λ v args'.
                      then-OnSome (convert_value-Inside fuel (r.memory (fmt + 1)) v r lt h)
                        (λ (r', ended) h'.
                          if-OnSome ended _ _ (format_while-Inside fuel (fmt + 2) args' r' h')
                            (on h'))))))
      ]
    where
      room : (b : Bool) (i n : ℕ) → (b || not (ltb i n)) ≡ false → i < n
      room b i n e = ground arith

-- At every moment of a call of `kvnprintf` in a program, with a buffer of at least one and less than
-- 2^64 bytes and as many arguments as the format takes, whatever the format, the strings and where they lie:
-- the index is inside the buffer, no byte outside the buffer has changed, and when the call has
-- ended, its result is less than the size.
pub kvnprintf-Inside :
    (fuel : ℕ) (m : Bytes) (buf size fmt : ℕ) (args : List ℕ)
    → 0 < size
    → size < 2 ^ 64
    → OnSome
        (λ (r, ended). (r.index < size) × SameOutside m r.memory buf size)
        (kvnprintf fuel m buf size fmt args)
unfolding kvnprintf
kvnprintf-Inside fuel m buf size fmt args pos small =
    let e : suc (last_index size) ≡ size = omega arith in
    weaken e (
      format_while-Inside m (last_index size) buf fuel fmt args (record { memory = m; index = 0 })
        (omega arith, λ a o. refl))
  where
    weaken :
        {n : ℕ} {o : Option (Run × Bool)}
        → suc n ≡ size
        → OnSome (InsideFirst m n buf) o
        → OnSome (λ (r, ended). (r.index < size) × SameOutside m r.memory buf size) o
    weaken e stopped = stopped
    weaken {n} e (on {a = (r, ended)} (le, h)) =
        on (omega (arith, le, e), subst (λ k. SameOutside m r.memory buf k) e h)
