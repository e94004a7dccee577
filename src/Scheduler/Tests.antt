-- ===== src/Scheduler/Tests.antt =====
-- kernel/scheduler.c and kernel/process.c at small process tables.
use riscv_os.Prelude.{
  ℕ, zero, suc, ◌≡◌, ◌⊎◌, refl, Bool, false, some, List, [], ◌∷◌, arith, replicate,
}
use riscv_os.Frames.{Memory}
use riscv_os.Process.{ProcState, Proc, Kernel, empty_proc, unused, runnable, running}
use riscv_os.Scheduler.{pick_next, yield}
use riscv_os.Scheduler.Pick.{Chosen, pick_next-Chosen, pick_next-starves}
use riscv_os.Scheduler.Running.{OnlyRunning, Yielded, yield-Yielded}

abbrev proc_in : ℕ → ProcState → Proc
proc_in i s = record empty_proc { pid = i; state = s }

abbrev idle_proc : Proc
idle_proc = proc_in 1 runnable

abbrev empty_memory : Memory
empty_memory = record {
  word = λ _. 0;
  free_list = 0;
  next_paddr = 0x1000;
  g_free_pages = 0;
  alloc_table = [];
  alloc_table_count = 0;
}

-- Idle, the shell that runs, and a program that waits for its turn
abbrev three_procs : List Proc
three_procs = idle_proc ∷ proc_in 2 running ∷ proc_in 3 runnable ∷ []

abbrev three : Kernel
three = record {
  procs = three_procs;
  current = some 1;
  idle = 0;
  process_count = 3;
  g_startup = false;
  memory = empty_memory;
}

three-OnlyRunning : OnlyRunning 1 three_procs
three-OnlyRunning zero ne = refl
three-OnlyRunning (suc zero) ne = absurd (ne refl)
three-OnlyRunning (suc (suc zero)) ne = refl
three-OnlyRunning (suc (suc (suc j))) ne = refl

yield-Yielded_example :
    (k' : Kernel) × (switched : Bool) × (yield three ≡ some (k', switched))
    × Yielded three 1 k' switched
yield-Yielded_example = yield-Yielded three 1 refl (omega arith) three-OnlyRunning

pick_next-Chosen_example : Chosen 3 1 three_procs (pick_next 3 1 three_procs)
pick_next-Chosen_example =
    pick_next-Chosen 3 1 idle_proc (proc_in 2 running ∷ proc_in 3 runnable ∷ [])

pick_next-starves_example :
    (pick_next 4 0 (idle_proc ∷ proc_in 2 runnable ∷ proc_in 3 runnable ∷ proc_in 4 runnable ∷ [])
      ≡ some 1)
    ⊎ (pick_next 4 0 (idle_proc ∷ proc_in 2 runnable ∷ proc_in 3 runnable ∷ proc_in 4 runnable ∷ [])
        ≡ some 2)
pick_next-starves_example =
    pick_next-starves 4 0 idle_proc (proc_in 2 runnable) (proc_in 3 runnable)
      (proc_in 4 runnable ∷ []) (omega arith) (omega arith) (omega arith) refl refl

-- One process, and seven unused entries
abbrev one_proc : List Proc
one_proc = idle_proc ∷ replicate 7 empty_proc

abbrev two_procs : List Proc
two_procs = idle_proc ∷ proc_in 2 unused ∷ replicate 6 empty_proc
