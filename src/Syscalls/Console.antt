-- ===== src/Syscalls/Console.antt =====
-- kernel/syscall.c: the calls that read and write the console, and those that list something on it.
-- `user` is the memory of the process that runs, from virtual addresses to bytes; output is the list
-- of the bytes for `uart_putc`.
use riscv_os.Prelude.{
  u64, ℕ, zero, suc, ◌+◌, ◌-◌, ◌%◌, ◌^◌, ℤ, pos, negsuc, not, ◌||◌, Option, none, some, List, [],
  ◌∷◌, ◌++◌, ltb, ◌==◌, if◌then◌else◌, ◌>>=◌, length, take, drop, get_or, replicate,
}
use riscv_os.Process.{Proc, Kernel, proc_at, proc_state_str}
use riscv_os.Scheduler.{yield}
use riscv_os.Text.{strncpy}
use riscv_os.Uart.{Arg, uart_puts, uart_printf}
use riscv_os.Archive.{header_size, entry_bytes}
use riscv_os.Format.{kvnprintf}

-- How `sys_read` ends: it returns; it waits for input; or a `yield` gives the CPU away. With the
-- bytes that are stored from `buf` on.
pub data ReadEnd : Type 0 where
  returned : ℤ → List ℕ → Kernel → ReadEnd
  waiting : List ℕ → Kernel → ReadEnd
  left : List ℕ → Kernel → ReadEnd

-- The loop, for what `uart_getc` returns call by call (`none` is -1), the bytes left to read, and the
-- bytes read.
unfoldable pub read_loop : List (Option ℕ) → ℕ → List ℕ → Kernel → Option ReadEnd
unfolding yield
read_loop input zero got k = some (returned (pos (length got)) got k)
read_loop [] (suc n) got k = some (waiting got k)
read_loop (none ∷ input) (suc n) got k = read_loop input (suc n) got k
read_loop (some c ∷ input) (suc n) got k =
    if c == 10
    then some (returned (pos (length got + 1)) (got ++ (c % 256 ∷ [])) k)
    else yield k >>= λ (k', switched).
        if switched
        then some (left (got ++ (c % 256 ∷ [])) k')
        else read_loop input n (got ++ (c % 256 ∷ [])) k'

unfoldable pub sys_read : List (Option ℕ) → (fd buf len : ℕ) → Kernel → Option ReadEnd
unfolding read_loop
sys_read input fd buf len k =
    if not (fd == 0) || (buf == 0 || len == 0)
    then some (returned (negsuc 0) [] k)
    else read_loop input len [] k

-- The bytes from a virtual address on.
unfoldable pub user_bytes : (ℕ → ℕ) → ℕ → ℕ → List ℕ
user_bytes user va zero = []
user_bytes user va (suc n) = user va ∷ user_bytes user (u64 (va + 1)) n

-- `(int)` of a 64-bit number
abbrev pub to_int : ℕ → ℤ
to_int v = let low = v % 2 ^ 32 in if ltb low (2 ^ 31) then pos low else negsuc (2 ^ 32 - 1 - low)

unfoldable pub sys_write : (ℕ → ℕ) → (fd user_buf len : ℕ) → ℤ × List ℕ
unfolding user_bytes
sys_write user fd user_buf len =
    if not (fd == 1) then (negsuc 0, []) else (to_int len, user_bytes user user_buf len)

abbrev pub ps_title : List ℕ
ps_title =
    b'P' ∷ b'I' ∷ b'D' ∷ 9 ∷ b'S' ∷ b'T' ∷ b'A' ∷ b'T' ∷ b'E' ∷ 9 ∷ 9 ∷ b'N' ∷ b'A' ∷ b'M' ∷ b'E'
    ∷ 10 ∷ 0 ∷ []

-- `"%d\t%s\t%s\n"`
abbrev pub ps_format : List ℕ
ps_format = b'%' ∷ b'd' ∷ 9 ∷ b'%' ∷ b's' ∷ 9 ∷ b'%' ∷ b's' ∷ 10 ∷ 0 ∷ []

unfoldable pub ps_line : Proc → Option (List ℕ)
unfolding proc_state_str
ps_line p =
    if not (p.pid == 0)
    then uart_printf ps_format (
        Arg.number p.pid
        ∷ Arg.string (some (proc_state_str p.state ++ (0 ∷ [])))
        ∷ Arg.string (some p.name)
        ∷ [])
    else some []

unfoldable pub ps_loop : List Proc → Option (List ℕ)
unfolding ps_line
ps_loop [] = some []
ps_loop (p ∷ ps) = ps_line p >>= λ line. ps_loop ps >>= λ rest. some (line ++ rest)

unfoldable pub sys_ps : Kernel → Option (List ℕ)
unfolding ps_loop
sys_ps k = uart_puts ps_title >>= λ title. ps_loop k.procs >>= λ rest. some (title ++ rest)

abbrev pub ls_title : List ℕ
ls_title =
    b'F' ∷ b'i' ∷ b'l' ∷ b'e' ∷ b's' ∷ b' ' ∷ b'i' ∷ b'n' ∷ b' ' ∷ b't' ∷ b'a' ∷ b'r' ∷ b'f' ∷ b's'
    ∷ b':' ∷ 10 ∷ 0 ∷ []

-- `"  %s\n"`
abbrev pub ls_format : List ℕ
ls_format = b' ' ∷ b' ' ∷ b'%' ∷ b's' ∷ 10 ∷ 0 ∷ []

-- The loop over the archive, with one unit of fuel for an entry.
unfoldable pub ls_loop : ℕ → List ℕ → ℕ → Option (List ℕ)
ls_loop zero archive at = none
ls_loop (suc fuel) archive at =
    if not (ltb at (length archive))
    then some []
    else if get_or archive at 0 == 0
    then some []
    else (uart_printf ls_format (Arg.string (some (drop at archive)) ∷ []) >>= λ line.
        header_size archive at >>= λ size.
        ls_loop fuel archive (at + entry_bytes size) >>= λ rest. some (line ++ rest))

unfoldable pub sys_ls : ℕ → List ℕ → Option (List ℕ)
unfolding ls_loop
sys_ls fuel archive =
    uart_puts ls_title >>= λ title. ls_loop fuel archive 0 >>= λ rest. some (title ++ rest)

-- kernel/virtio-emerg.c: `"[%s:PID=%d] [%s] %s: "`, `"%s"` and `"\n"`
abbrev pub log_format : List ℕ
log_format =
    b'[' ∷ b'%' ∷ b's' ∷ b':' ∷ b'P' ∷ b'I' ∷ b'D' ∷ b'=' ∷ b'%' ∷ b'd' ∷ b']' ∷ b' ' ∷ b'[' ∷ b'%'
    ∷ b's' ∷ b']' ∷ b' ' ∷ b'%' ∷ b's' ∷ b':' ∷ b' ' ∷ 0 ∷ []

-- What `kvnprintf` writes, without its terminator.
abbrev pub without_end : List ℕ → List ℕ
without_end out = take (length out - 1) out

-- The three pieces in a buffer of 512 bytes.
unfoldable pub virtio_emerg_log_ext :
    List ℕ → ℕ → List ℕ → Option (List ℕ) → List ℕ → List Arg → Option (List ℕ)
virtio_emerg_log_ext source pid level label fmt args =
    kvnprintf 512 log_format (
      Arg.string (some source)
      ∷ Arg.number pid
      ∷ Arg.string (some level)
      ∷ Arg.string (some (elim label [ none ↦ 0 ∷ [] | some l ↦ l ]))
      ∷ [])
    >>= λ head. kvnprintf (512 - length (without_end head)) fmt args >>= λ body.
        kvnprintf (512 - length (without_end head ++ without_end body)) (10 ∷ 0 ∷ []) []
        >>= λ newline. some (without_end head ++ (without_end body ++ without_end newline))

abbrev pub user_source : List ℕ
user_source = b'U' ∷ b'S' ∷ b'E' ∷ b'R' ∷ 0 ∷ []

abbrev pub info_level : List ℕ
info_level = b'I' ∷ b'N' ∷ b'F' ∷ b'O' ∷ 0 ∷ []

-- The result and what goes to the emergency console, for the string at `msg`.
unfoldable pub sys_log : Option (List ℕ) → Kernel → Option (ℤ × List ℕ)
unfolding virtio_emerg_log_ext
sys_log none k = some (negsuc 0, [])
sys_log (some msg) k = strncpy (replicate 256 0) msg 255 >>= λ buf. k.current >>= λ cur.
    virtio_emerg_log_ext user_source (proc_at k.procs cur).pid info_level
      (some (proc_at k.procs cur).name) (b'%' ∷ b's' ∷ 0 ∷ [])
      (Arg.string (some (take 255 buf ++ (0 ∷ []))) ∷ [])
    >>= λ out. some (pos 0, out)
