-- ===== src/Process.antt =====
-- include/process.h and the process table of kernel/process.c. A process is known by its index in
-- `procs`. A trap frame belongs to one process and is kept in it; `none` is a null pointer. An
-- operation that is `none` stops the machine: a PANIC, or a use of a null pointer.
pub mod Table
use riscv_os.Prelude.{
  ℕ, zero, suc, ◌+◌, ◌-◌, ℤ, pos, negsuc, Bool, true, false, ◌||◌, ◌&&◌, Option, none, some, List,
  [], ◌∷◌, ltb, leb, ◌==◌, if◌then◌else◌, replicate,
}
use riscv_os.Frames.{Memory}

abbrev pub procs_max : ℕ
procs_max = 8

abbrev pub max_msg_size : ℕ
max_msg_size = 256

abbrev pub proc_name_max_len : ℕ
proc_name_max_len = 64

pub data ProcState : Type 0 where
  unused runnable running waiting zombie : ProcState

-- `regs_t`, as a function from the position of a register in the struct, with `sp` and `epc`.
pub record TrapFrame : Type 0 where
  pub regs : ℕ → ℕ
  pub sp : ℕ
  pub epc : ℕ

-- Positions in `regs_t`
abbrev pub reg_ra : ℕ
reg_ra = 0

abbrev pub reg_a0 : ℕ
reg_a0 = 10

abbrev pub reg_a7 : ℕ
reg_a7 = 17

unfoldable pub set_reg : (ℕ → ℕ) → ℕ → ℕ → ℕ → ℕ
set_reg regs i v j = if j == i then v else regs j

-- `ipc_message_t`
pub record IpcMessage : Type 0 where
  pub content : List ℕ
  pub size : ℕ
  pub sender : ℕ
  pub pending : Bool

-- `proc_t`; `page_table` is an address, 0 for null.
pub record Proc : Type 0 where
  pub pid : ℕ
  pub state : ProcState
  pub parent_pid : ℕ
  pub exit_code : ℤ
  pub parent : Option ℕ
  pub entry_point : ℕ
  pub user_stack_top : ℕ
  pub heap_end : ℕ
  pub sp : ℕ
  pub page_table : ℕ
  pub tf : Option TrapFrame
  pub image_pa : ℕ
  pub image_npages : ℕ
  pub inbox : IpcMessage
  pub name : List ℕ
  pub argc : ℕ
  pub argv_ptr : ℕ

abbrev pub empty_inbox : IpcMessage
empty_inbox = record { content = replicate max_msg_size 0; size = 0; sender = 0; pending = false }

-- `memset(p, 0, sizeof(proc_t))`
abbrev pub empty_proc : Proc
empty_proc = record {
  pid = 0;
  state = unused;
  parent_pid = 0;
  exit_code = pos 0;
  parent = none;
  entry_point = 0;
  user_stack_top = 0;
  heap_end = 0;
  sp = 0;
  page_table = 0;
  tf = none;
  image_pa = 0;
  image_npages = 0;
  inbox = empty_inbox;
  name = replicate proc_name_max_len 0;
  argc = 0;
  argv_ptr = 0;
}

-- The kernel's variables. `current` is `current_proc`, and `idle` the index of `idle_proc`.
pub record Kernel : Type 0 where
  pub procs : List Proc
  pub current : Option ℕ
  pub idle : ℕ
  pub process_count : ℕ
  pub g_startup : Bool
  pub memory : Memory

-- `procs[i]`; an index behind the table is never used.
abbrev pub proc_at : List Proc → ℕ → Proc
proc_at [] i = empty_proc
proc_at (p ∷ ps) zero = p
proc_at (p ∷ ps) (suc i) = proc_at ps i

abbrev pub set_proc : List Proc → ℕ → Proc → List Proc
set_proc [] i q = []
set_proc (p ∷ ps) zero q = q ∷ ps
set_proc (p ∷ ps) (suc i) q = p ∷ set_proc ps i q

abbrev pub is_unused : ProcState → Bool
is_unused unused = true
is_unused s = false

abbrev pub is_runnable : ProcState → Bool
is_runnable runnable = true
is_runnable s = false

abbrev pub is_running : ProcState → Bool
is_running running = true
is_running s = false

abbrev pub is_zombie : ProcState → Bool
is_zombie zombie = true
is_zombie s = false

-- The index of the process with a pid, an `int`; `none` is a null pointer.
unfoldable pub get_proc_by_pid : ℤ → Option ℕ
get_proc_by_pid (negsuc n) = none
get_proc_by_pid (pos zero) = none
get_proc_by_pid (pos (suc n)) = if ltb procs_max (suc n) then none else some n

-- The loop of `alloc_free_proc`, from index `i`: the first unused entry.
unfoldable pub find_unused : List Proc → ℕ → Option ℕ
find_unused [] i = none
find_unused (p ∷ ps) i = if is_unused p.state then some i else find_unused ps (i + 1)

-- The new process and the table with it; `none` if every entry is in use.
unfoldable pub alloc_free_proc : List Proc → Option (ℕ × List Proc)
unfolding find_unused
alloc_free_proc ps = elim (find_unused ps 0) [
  | none ↦ none
  | some i ↦ some (i, set_proc ps i (record empty_proc { pid = i + 1 }))
]

-- `proc_state_str`, by its codes.
unfoldable pub proc_state_str : ProcState → List ℕ
proc_state_str unused = b'U' ∷ b'N' ∷ b'U' ∷ b'S' ∷ b'E' ∷ b'D' ∷ b' ' ∷ b' ' ∷ []
proc_state_str runnable = b'R' ∷ b'U' ∷ b'N' ∷ b'N' ∷ b'A' ∷ b'B' ∷ b'L' ∷ b'E' ∷ []
proc_state_str running = b'R' ∷ b'U' ∷ b'N' ∷ b'N' ∷ b'I' ∷ b'N' ∷ b'G' ∷ b' ' ∷ []
proc_state_str waiting = b'W' ∷ b'A' ∷ b'I' ∷ b'T' ∷ b'I' ∷ b'N' ∷ b'G' ∷ b' ' ∷ []
proc_state_str zombie = b'Z' ∷ b'O' ∷ b'M' ∷ b'B' ∷ b'I' ∷ b'E' ∷ b' ' ∷ b' ' ∷ []
