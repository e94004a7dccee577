-- ===== src/Emerg.antt =====
-- kernel/virtio-emerg.c, kernel/virtio.c, and `log_user` of kernel/user.c: the emergency console. A
-- function's result is what it stores in registers of the device, as addresses and 32-bit values in
-- their order; `none` is a read behind the end of a string, or an argument that is not there.
pub mod Bounds
mod Tests
use mathlib.Core.Option
use riscv_os.Prelude.{
  u64, ℕ, zero, suc, ◌+◌, ◌-◌, ◌*◌, ◌/◌, ◌%◌, ◌^◌, Bool, true, false, not, ◌&&◌, ◌||◌, Option, none,
  some, List, [], ◌∷◌, ◌++◌, ◌==◌, if◌then◌else◌, ◌>>=◌, length,
}
use riscv_os.Uart.{Arg}
use riscv_os.Format.{kvnprintf}
use riscv_os.Syscalls.Console.{without_end, info_level}

-- VIRTIO_MMIO_DEVICE_CONFIG and the offset of `emerg_wr`
abbrev pub emerg_register : ℕ → ℕ
emerg_register regs = u64 (regs + 256 + 8)

-- `emerg_ptr`, which is null or a register
abbrev pub Register : Type 0
Register = Option ℕ

abbrev pub Stores : Type 0
Stores = List (ℕ × ℕ)

unfoldable pub virtio_emerg_init : ℕ → Register
virtio_emerg_init regs = some (emerg_register regs)

unfoldable pub emerg_putc : Register → ℕ → Stores
emerg_putc none c = []
emerg_putc (some ptr) c = (ptr, c) ∷ []

unfoldable pub emerg_puts : Register → List ℕ → Option Stores
unfolding emerg_putc
emerg_puts ptr [] = none
emerg_puts ptr (c ∷ s) =
    let rest = emerg_puts ptr s in
    if c == 0 then some [] else Option.map (λ stores. emerg_putc ptr c ++ stores) rest

unfoldable pub emerg_printf : Register → List ℕ → List Arg → Option Stores
unfolding emerg_puts
emerg_printf ptr fmt args = kvnprintf 256 fmt args >>= λ buf. emerg_puts ptr buf

-- `"[%s] "`
abbrev pub level_format : List ℕ
level_format = b'[' ∷ b'%' ∷ b's' ∷ b']' ∷ b' ' ∷ 0 ∷ []

-- The text in a buffer of 512 bytes, with its terminator: the level, the message, and a newline,
-- each of which begins at the terminator of the one before it.
unfoldable pub log_text : List ℕ → List ℕ → List Arg → Option (List ℕ)
log_text level fmt args = kvnprintf 512 level_format (Arg.string (some level) ∷ []) >>= λ head.
    kvnprintf (512 - length (without_end head)) fmt args >>= λ body.
    kvnprintf (512 - length (without_end head ++ without_end body)) (10 ∷ 0 ∷ []) [] >>= λ newline.
    some (without_end head ++ (without_end body ++ newline))

unfoldable pub virtio_emerg_log : Register → List ℕ → List ℕ → List Arg → Option Stores
unfolding log_text emerg_puts
virtio_emerg_log ptr level fmt args = log_text level fmt args >>= λ buf. emerg_puts ptr buf

unfoldable pub virtio_emerg_log_va : Register → List ℕ → List ℕ → List Arg → Option Stores
unfolding log_text emerg_puts
virtio_emerg_log_va ptr level fmt args = log_text level fmt args >>= λ buf. emerg_puts ptr buf

unfoldable pub virtio_emerg_test : ℕ → Stores
virtio_emerg_test regs =
    let emerg = emerg_register regs in (emerg, b'H') ∷ (emerg, b'i') ∷ (emerg, 10) ∷ []

-- `user_log_level_t`
pub data UserLogLevel : Type 0 where
  info : UserLogLevel
  warn : UserLogLevel
  err : UserLogLevel
  dbg : UserLogLevel

abbrev pub level_name : UserLogLevel → List ℕ
level_name info = info_level
level_name warn = b'W' ∷ b'A' ∷ b'R' ∷ b'N' ∷ 0 ∷ []
level_name err = b'E' ∷ b'R' ∷ b'R' ∷ 0 ∷ []
level_name dbg = b'D' ∷ b'B' ∷ b'G' ∷ 0 ∷ []

-- MAKE_SATP of include/page.h
abbrev pub make_satp : ℕ → ℕ
make_satp pagetable = 2 ^ 63 + pagetable / 4096 % 2 ^ 44

-- include/page.h: the old value of satp, and the one that is in use then.
unfoldable pub switch_pagetable : (satp new_pagetable : ℕ) → ℕ × ℕ
switch_pagetable satp new_pagetable = (satp, make_satp new_pagetable)

unfoldable pub restore_pagetable : (satp old_satp : ℕ) → ℕ
restore_pagetable satp old_satp = old_satp

-- The stores, made with the kernel's page table in use, whose satp is given with them, and the satp
-- at the end.
unfoldable pub log_user :
    (satp kernel_pagetable : ℕ)
    → Register
    → UserLogLevel
    → List ℕ
    → List Arg
    → Option (ℕ × Stores × ℕ)
unfolding virtio_emerg_log_va switch_pagetable restore_pagetable
log_user satp kernel_pagetable ptr level fmt args =
    let (old_satp, kernel_satp) = switch_pagetable satp kernel_pagetable in
    virtio_emerg_log_va ptr (level_name level) fmt args >>= λ stores.
    some (kernel_satp, stores, restore_pagetable kernel_satp old_satp)

-- VIRTIO_MAGIC, and VIRTIO_DEV_ID_CONSOLE
abbrev pub virtio_magic : ℕ
virtio_magic = 0x74726976

abbrev pub virtio_console_base : ℕ
virtio_console_base = 0x10007000

-- The base of a device's registers
abbrev pub device_base : ℕ → ℕ
device_base i = 0x10001000 + i * 4096

-- The round for a device: `mmio` has the 32-bit words of the registers.
unfoldable pub scan_device : (ℕ → ℕ) → ℕ → Register → Register
unfolding virtio_emerg_init
scan_device mmio base ptr =
    if not (mmio base == virtio_magic) || not (mmio (base + 4) == 1)
    then ptr
    else if mmio (base + 8) == 3
    then virtio_emerg_init virtio_console_base
    else ptr

-- The rounds from device `i` on.
unfoldable pub scan_loop : ℕ → (ℕ → ℕ) → ℕ → Register → Register
unfolding scan_device
scan_loop zero mmio i ptr = ptr
scan_loop (suc n) mmio i ptr = scan_loop n mmio (i + 1) (scan_device mmio (device_base i) ptr)

unfoldable pub virtio_bus_init_scan : (ℕ → ℕ) → Register → Register
unfolding scan_loop
virtio_bus_init_scan mmio ptr = scan_loop 8 mmio 0 ptr
