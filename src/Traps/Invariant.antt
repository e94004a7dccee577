-- ===== src/Traps/Invariant.antt =====
-- What holds of the kernel's variables whenever a process runs, and the changes of one entry of the
-- table that keep it.
use riscv_os.Prelude.{
  ℕ, ◌+◌, ◌<◌, ◌≡◌, refl, sym, ap, subst, ◌∙◌, ◌≢◌, inl, inr, Bool, true, false, Option, none, some,
  List, ◌==◌, if◌then◌else◌, ◌>>=◌, length, Bool-cases, ==→eq, ==_false→ne,
}
use riscv_os.Frames.{Memory}
use riscv_os.Process.{Proc, Kernel, procs_max, proc_at, set_proc, is_running}
use riscv_os.Process.Table.{proc_at-set_proc, proc_at-set_proc_ne, length-set_proc}
use riscv_os.Scheduler.Running.{OnlyRunning}

-- A property of what an operation returns, if it does not stop the machine.
pub data OnSome {A : Type 0} (P : A → Type 0) : Option A → Type 0 where
  stopped : OnSome P none
  on : {a : A} → P a → OnSome P (some a)

pub bind-OnSome :
    {A B : Type 0} {P : B → Type 0} (o : Option A) (f : A → Option B)
    → ((a : A) → o ≡ some a → OnSome P (f a))
    → OnSome P (o >>= f)
bind-OnSome none f h = stopped
bind-OnSome (some a) f h = h a refl

pub if-OnSome :
    {B : Type 0} {P : B → Type 0} (b : Bool) (x y : Option B)
    → OnSome P x
    → OnSome P y
    → OnSome P (if b then x else y)
if-OnSome true x y hx hy = hx
if-OnSome false x y hx hy = hy

-- A pid is 0, or that of its entry's place.
abbrev pub Numbered : List Proc → Type 0
Numbered ps = (j : ℕ) → (proc_at ps j).pid ≢ 0 → (proc_at ps j).pid ≡ j + 1

-- The table is whole, the current process and the idle one are in it, no other process than the
-- current one is running, and the entries have the pids of their places.
pub record IsKernel (k : Kernel) : Type 0 where
  pub size : length k.procs ≡ procs_max
  pub cur : ℕ
  pub current : k.current ≡ some cur
  pub in_table : cur < procs_max
  pub idle_in_table : k.idle < procs_max
  pub only : OnlyRunning cur k.procs
  pub numbered : Numbered k.procs

set-OnlyRunning :
    (ps : List Proc) (cur i : ℕ) (q : Proc)
    → i < length ps
    → OnlyRunning cur ps
    → (is_running q.state ≡ true → i ≡ cur)
    → OnlyRunning cur (set_proc ps i q)
set-OnlyRunning ps cur i q hi only hq j ne = elim (Bool-cases (i == j)) [
  | inl e ↦
      subst (λ x. is_running (proc_at (set_proc ps i q) x).state ≡ false) (==→eq i j e)
        (ap (λ p. is_running p.state) (proc_at-set_proc ps i q hi) ∙ not_running (==→eq i j e))
  | inr e ↦
      ap (λ p. is_running p.state) (proc_at-set_proc_ne ps i j q (==_false→ne i j e)) ∙ only j ne
]
  where
    not_running : i ≡ j → is_running q.state ≡ false
    not_running e = elim (Bool-cases (is_running q.state)) [
      | inl r ↦ absurd (ne (sym e ∙ hq r))
      | inr r ↦ r
    ]

pub set-Numbered :
    (ps : List Proc) (i : ℕ) (q : Proc)
    → i < length ps
    → Numbered ps
    → (q.pid ≢ 0 → q.pid ≡ i + 1)
    → Numbered (set_proc ps i q)
set-Numbered ps i q hi num hq j = elim (Bool-cases (i == j)) [
  | inl e ↦
      subst (λ x. (proc_at (set_proc ps i q) x).pid ≢ 0 → (proc_at (set_proc ps i q) x).pid ≡ x + 1)
        (==→eq i j e) (subst (λ p. p.pid ≢ 0 → p.pid ≡ i + 1) (sym (proc_at-set_proc ps i q hi)) hq)
  | inr e ↦
      subst (λ p. p.pid ≢ 0 → p.pid ≡ j + 1)
        (sym (proc_at-set_proc_ne ps i j q (==_false→ne i j e))) (num j)
]

-- The memory is no part of the invariant.
pub memory-IsKernel : (k : Kernel) → IsKernel k → (m : Memory) → IsKernel (record k { memory = m })
memory-IsKernel k h m = record {
  size = h.size;
  cur = h.cur;
  current = h.current;
  in_table = h.in_table;
  idle_in_table = h.idle_in_table;
  only = h.only;
  numbered = h.numbered;
}

-- One entry is replaced, and what the invariant does not speak of may change.
pub set-IsKernel :
    (k : Kernel) (h : IsKernel k) (i : ℕ) (q : Proc) (m : Memory) (n : ℕ)
    → i < procs_max
    → (is_running q.state ≡ true → i ≡ h.cur)
    → (q.pid ≢ 0 → q.pid ≡ i + 1)
    → IsKernel (record k { procs = set_proc k.procs i q; memory = m; process_count = n })
set-IsKernel k h i q m n hi hr hp =
    let hi' : i < length k.procs = subst (λ x. i < x) (sym h.size) hi in
    record {
      size = length-set_proc k.procs i q ∙ h.size;
      cur = h.cur;
      current = h.current;
      in_table = h.in_table;
      idle_in_table = h.idle_in_table;
      only = set-OnlyRunning k.procs h.cur i q hi' h.only hr;
      numbered = set-Numbered k.procs i q hi' h.numbered hp;
    }

-- The entry of the current process keeps its pid.
pub current-IsKernel :
    (k : Kernel) (h : IsKernel k) (i : ℕ) (q : Proc) (m : Memory) (n : ℕ)
    → k.current ≡ some i
    → q.pid ≡ (proc_at k.procs i).pid
    → IsKernel (record k { procs = set_proc k.procs i q; memory = m; process_count = n })
current-IsKernel k h i q m n ec ep =
    let same : i ≡ h.cur = cc in
    set-IsKernel k h i q m n (subst (λ x. x < procs_max) (sym same) h.in_table) (λ _. same)
      (λ ne. ep ∙ h.numbered i (λ z. ne (ep ∙ z)))

-- Any entry keeps its pid and its state.
pub kept-IsKernel :
    (k : Kernel) (h : IsKernel k) (i : ℕ) (q : Proc) (m : Memory) (n : ℕ)
    → i < procs_max
    → q.pid ≡ (proc_at k.procs i).pid
    → q.state ≡ (proc_at k.procs i).state
    → IsKernel (record k { procs = set_proc k.procs i q; memory = m; process_count = n })
kept-IsKernel k h i q m n hi ep es =
    set-IsKernel k h i q m n hi is_current (λ ne. ep ∙ h.numbered i (λ z. ne (ep ∙ z)))
  where
    is_current : is_running q.state ≡ true → i ≡ h.cur
    is_current r = elim (Bool-cases (i == h.cur)) [
      | inl e ↦ ==→eq i h.cur e
      | inr e ↦
          let n : is_running (proc_at k.procs i).state ≡ false = h.only i (==_false→ne i h.cur e) in
          let y : is_running (proc_at k.procs i).state ≡ true = ap is_running (sym es) ∙ r in cc
    ]

-- What an operation returns has a kernel at its front, or at its end.
abbrev pub First : {A : Type 0} → Kernel × A → Type 0
First r = IsKernel r.0

abbrev pub Second : {A : Type 0} → A × Kernel → Type 0
Second r = IsKernel r.1
