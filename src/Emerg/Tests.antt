-- ===== src/Emerg/Tests.antt =====
-- kernel/virtio-emerg.c and kernel/virtio.c on concrete devices.
use riscv_os.Prelude.{ℕ, ◌≡◌, refl, none, some, List, [], ◌∷◌, ◌==◌, if◌then◌else◌}
use riscv_os.Uart.{number}
use riscv_os.Syscalls.Console.{info_level}
use riscv_os.Emerg.{Register, virtio_emerg_log, virtio_magic, virtio_bus_init_scan, emerg_printf}
use riscv_os.Emerg.Bounds.{Writes, virtio_emerg_log-Writes}

-- `"n=%d"`
abbrev number_format : List ℕ
number_format = b'n' ∷ b'=' ∷ b'%' ∷ b'd' ∷ 0 ∷ []

abbrev console : Register
console = some 0x10007108

virtio_emerg_log-Writes_example :
    Writes console 511 (virtio_emerg_log console info_level number_format (number 7 ∷ []))
virtio_emerg_log-Writes_example =
    virtio_emerg_log-Writes console info_level number_format (number 7 ∷ [])

-- A console behind the sixth base, of version 1
abbrev devices : ℕ → ℕ
devices a =
    if a == 0x10007000
    then virtio_magic
    else if a == 0x10007004
    then 1
    else if a == 0x10007008
    then 3
    else 0

console_found : virtio_bus_init_scan devices none ≡ console
unfolding virtio_bus_init_scan
console_found = refl

no_console : virtio_bus_init_scan (λ _. 0) none ≡ none
unfolding virtio_bus_init_scan
no_console = refl

two_digits :
    emerg_printf console number_format (number 42 ∷ [])
    ≡ some ((0x10007108, b'n') ∷ (0x10007108, b'=') ∷ (0x10007108, b'4') ∷ (0x10007108, b'2') ∷ [])
unfolding emerg_printf riscv_os.Format.kvnprintf
two_digits = refl
