-- ===== src/Printf/Tests.antt =====
-- user/lib/printf.c at a concrete format, in a machine with one process.
use riscv_os.Prelude.{◌-◌, ◌^◌, ◌≡◌, refl, false, none, some, List, [], ◌∷◌, ℕ, arith}
use riscv_os.Process.{Kernel, TrapFrame, empty_proc}
use riscv_os.Traps.{World}
use riscv_os.Uart.{Arg, number, uart_printf}
use riscv_os.Printf.{Call, putchar, printf}
use riscv_os.Printf.Calls.{Fits, perform_all}
use riscv_os.Printf.Same.{Bytes, printf-uart_printf}

abbrev frame : TrapFrame
frame = record { regs = λ _. 0; sp = 0x2000; epc = 0x1000000 }

abbrev kernel : Kernel
kernel = record {
  procs = empty_proc ∷ [];
  current = some 0;
  idle = 0;
  process_count = 1;
  g_startup = false;
  memory = record {
    word = λ _. 0;
    free_list = 0;
    next_paddr = 0x1000;
    g_free_pages = 0;
    alloc_table = [];
    alloc_table_count = 0;
  };
}

abbrev around : World
around = record {
  kernel_base = 0x8000000000;
  ram_end = 0x9000000000;
  user_return = 0x8000001000;
  old_frame = frame;
  table_fuel = 3;
  stack_top = 0x2000000;
  max_tracked = 16;
  archive = [];
  user = λ _. 0;
  input = [];
  base_epoch = none;
  ticks = 0;
  total_pages = 16;
}

-- `printf("%04d\n", -7)`
abbrev format : List ℕ
format = b'%' ∷ b'0' ∷ b'4' ∷ b'd' ∷ 10 ∷ 0 ∷ []

abbrev minus_seven : List Arg
minus_seven = number (2 ^ 32 - 7) ∷ []

abbrev seven_calls : List Call
seven_calls =
    putchar b'-' ∷ putchar b'0' ∷ putchar b'0' ∷ Call.write 1 (b'7' ∷ 0 ∷ []) 1 ∷ putchar 10 ∷ []

format-Bytes : Bytes format
format-Bytes = ground arith

printf-format : printf format minus_seven ≡ some seven_calls
unfolding printf
printf-format = refl

seven_calls-Fits : Fits (λ _. 0x1ff000) seven_calls
seven_calls-Fits = (omega arith, _)

printf-uart_printf_example :
    perform_all around frame kernel (λ _. 0x1ff000) seven_calls ≡ uart_printf format minus_seven
printf-uart_printf_example =
    printf-uart_printf around frame kernel (λ _. 0x1ff000) format minus_seven seven_calls
      format-Bytes printf-format seven_calls-Fits
