-- ===== src/Printf/Calls.antt =====
-- user/lib/syscall.c and kernel/syscall.c: what the calls of Printf write on the console when the
-- kernel handles them one after the other.
use mathlib.Core.Option
use riscv_os.Prelude.{
  u64, ℕ, zero, suc, ◌+◌, ◌-◌, ◌%◌, ◌^◌, ◌≤◌, ◌≡◌, refl, ap, sym, ◌∙◌, Bool-cases, inl, inr, Option,
  none, some, List, [], ◌∷◌, ◌++◌, ◌==◌, if◌then◌else◌, ◌>>=◌, arith, get_or,
}
use riscv_os.Process.{Kernel, TrapFrame}
use riscv_os.Syscalls.Console.{user_bytes, sys_write}
use riscv_os.Traps.{
  World, Outcome, result, handle_syscall, process_call, message_call, console_call,
}
use riscv_os.Printf.{Call, putchar}

-- The frame of an `ecall`, from its registers a7, a0, a1 and a2.
abbrev pub call_frame : TrapFrame → (sysno arg0 arg1 arg2 : ℕ) → TrapFrame
call_frame f sysno arg0 arg1 arg2 = record f {
  regs = λ i.
      if i == 17
      then sysno
      else if i == 10
      then arg0
      else if i == 11
      then arg1
      else if i == 12
      then arg2
      else f.regs i;
}

-- A memory with a string from an address on
abbrev pub placed : ℕ → List ℕ → ℕ → ℕ
placed buf s va = get_or s (va - buf) 0

abbrev pub output_of : Option Outcome → Option (List ℕ)
output_of (some (result d e k)) = some e.output
output_of o = none

-- What the kernel writes on a call; `at` gives the address of a string.
unfoldable pub perform : World → TrapFrame → Kernel → (List ℕ → ℕ) → Call → Option (List ℕ)
unfolding handle_syscall
perform w f k at (putchar ch) = output_of (handle_syscall w (call_frame f 400 ch 0 0) k)
perform w f k at (Call.write fd buf len) =
    output_of
      (handle_syscall (record w { user = placed (at buf) buf }) (call_frame f 64 fd (at buf) len) k)

unfoldable pub perform_all : World → TrapFrame → Kernel → (List ℕ → ℕ) → List Call → Option (List ℕ)
unfolding perform
perform_all w f k at [] = some []
perform_all w f k at (c ∷ cs) =
    perform w f k at c >>= λ out. Option.map (λ rest. out ++ rest) (perform_all w f k at cs)

-- Every string lies below the end of the addresses.
abbrev pub Fits : (List ℕ → ℕ) → List Call → Type 0
Fits at [] = Unit {0}
Fits at (putchar ch ∷ cs) = Fits at cs
Fits at (Call.write fd buf len ∷ cs) = (at buf + len ≤ 2 ^ 64) × Fits at cs

-- The first bytes of a memory that holds a string and 0 behind it.
abbrev pub first_bytes : ℕ → List ℕ → List ℕ
first_bytes zero s = []
first_bytes (suc n) [] = 0 ∷ first_bytes n []
first_bytes (suc n) (c ∷ s) = c ∷ first_bytes n s

-- What a call says
abbrev pub said : Call → List ℕ
said (putchar ch) = ch % 256 ∷ []
said (Call.write fd buf len) = if fd == 1 then first_bytes len buf else []

abbrev pub said_all : List Call → List ℕ
said_all [] = []
said_all (c ∷ cs) = said c ++ said_all cs

add_one : (va i : ℕ) → va + 1 + i ≡ va + suc i
add_one va i = omega arith

add_zero : (va : ℕ) → va + 0 ≡ va
add_zero va = omega arith

add-sub : (a i : ℕ) → a + i - a ≡ i
add-sub a i = omega arith

user_bytes-u64 :
    (user : ℕ → ℕ) (va n : ℕ)
    → va + suc n ≤ 2 ^ 64
    → user_bytes user (u64 (va + 1)) n ≡ user_bytes user (va + 1) n
unfolding user_bytes
user_bytes-u64 user va zero b = refl
user_bytes-u64 user va (suc n) b =
    let e : u64 (va + 1) ≡ va + 1 = omega arith in ap (λ a. user_bytes user a (suc n)) e

-- The bytes that the kernel reads at a string, when no address wraps.
user_bytes-first_bytes :
    (user : ℕ → ℕ) (va n : ℕ) (s : List ℕ)
    → ((i : ℕ) → user (va + i) ≡ get_or s i 0)
    → va + n ≤ 2 ^ 64
    → user_bytes user va n ≡ first_bytes n s
unfolding user_bytes
user_bytes-first_bytes user va zero s h b = refl
user_bytes-first_bytes user va (suc n) [] h b =
    let rest : user_bytes user (va + 1) n ≡ first_bytes n [] =
      user_bytes-first_bytes user (va + 1) n [] (λ i. ap user (add_one va i) ∙ h (suc i))
        (omega arith) in
    rw (user_bytes-u64 user va n b, rest)
      (ap (λ a. a ∷ first_bytes n []) (sym (ap user (add_zero va)) ∙ h 0))
user_bytes-first_bytes user va (suc n) (c ∷ s) h b =
    let rest : user_bytes user (va + 1) n ≡ first_bytes n s =
      user_bytes-first_bytes user (va + 1) n s (λ i. ap user (add_one va i) ∙ h (suc i))
        (omega arith) in
    rw (user_bytes-u64 user va n b, rest)
      (ap (λ a. a ∷ first_bytes n s) (sym (ap user (add_zero va)) ∙ h 0))

user_bytes-placed :
    (at n : ℕ) (s : List ℕ) → at + n ≤ 2 ^ 64 → user_bytes (placed at s) at n ≡ first_bytes n s
user_bytes-placed at n s b =
    user_bytes-first_bytes (placed at s) at n s (λ i. ap (λ j. get_or s j 0) (add-sub at i)) b

sys_write-said :
    (at fd len : ℕ) (s : List ℕ)
    → at + len ≤ 2 ^ 64
    → (sys_write (placed at s) fd at len).1 ≡ said (Call.write fd s len)
unfolding sys_write
sys_write-said at fd len s b = elim (Bool-cases (fd == 1)) [
  | inl e ↦ rw e (user_bytes-placed at len s b)
  | inr e ↦ rw e refl
]

perform-write :
    (w : World) (f : TrapFrame) (k : Kernel) (at : List ℕ → ℕ) (fd : ℕ) (buf : List ℕ) (len : ℕ)
    → perform w f k at (Call.write fd buf len)
      ≡ some (sys_write (placed (at buf) buf) fd (at buf) len).1
unfolding perform handle_syscall process_call message_call console_call
perform-write w f k at fd buf len = refl

-- The kernel writes what a call says.
perform-said :
    (w : World) (f : TrapFrame) (k : Kernel) (at : List ℕ → ℕ) (c : Call)
    → Fits at (c ∷ [])
    → perform w f k at c ≡ some (said c)
unfolding perform handle_syscall process_call message_call console_call
perform-said w f k at (putchar ch) h = refl
perform-said w f k at (Call.write fd buf len) h =
    perform-write w f k at fd buf len ∙ ap some (sys_write-said (at buf) fd len buf h.0)

perform_all-perform :
    (w : World) (f : TrapFrame) (k : Kernel) (at : List ℕ → ℕ) (c : Call) (cs : List Call)
    → perform_all w f k at (c ∷ cs)
      ≡ (perform w f k at c >>= λ out. Option.map (λ rest. out ++ rest) (perform_all w f k at cs))
unfolding perform_all
perform_all-perform w f k at c cs = refl

perform_all-cons :
    (w : World) (f : TrapFrame) (k : Kernel) (at : List ℕ → ℕ) (c : Call) (cs : List Call)
    → Fits at (c ∷ [])
    → perform_all w f k at cs ≡ some (said_all cs)
    → perform_all w f k at (c ∷ cs) ≡ some (said_all (c ∷ cs))
perform_all-cons w f k at c cs h e =
    perform_all-perform w f k at c cs ∙ rw (perform-said w f k at c h, e) refl

pub perform_all-said_all :
    (w : World) (f : TrapFrame) (k : Kernel) (at : List ℕ → ℕ) (cs : List Call)
    → Fits at cs
    → perform_all w f k at cs ≡ some (said_all cs)
unfolding perform_all
perform_all-said_all w f k at [] h = refl
perform_all-said_all w f k at (putchar ch ∷ cs) h =
    perform_all-cons w f k at (putchar ch) cs _ (perform_all-said_all w f k at cs h)
perform_all-said_all w f k at (Call.write fd buf len ∷ cs) h =
    perform_all-cons w f k at (Call.write fd buf len) cs (h.0, _)
      (perform_all-said_all w f k at cs h.1)
