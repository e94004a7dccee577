-- ===== src/Uart/Tests.antt =====
-- kernel/uart.c at concrete numbers.
use riscv_os.Prelude.{◌-◌, ◌^◌, ◌≡◌, refl, some, [], ◌∷◌}
use riscv_os.Uart.{uart_putpad, uart_printf, number}

-- `uart_printf("%02u", 5)`
two_places : uart_printf (b'%' ∷ b'0' ∷ b'2' ∷ b'u' ∷ 0 ∷ []) (number 5 ∷ []) ≡ some (b'5' ∷ [])
unfolding uart_printf uart_putpad
two_places = refl

-- `uart_printf("n=%d", -7)`
minus_seven :
    uart_printf (b'n' ∷ b'=' ∷ b'%' ∷ b'd' ∷ 0 ∷ []) (number (2 ^ 32 - 7) ∷ [])
    ≡ some (b'n' ∷ b'=' ∷ b'-' ∷ b'7' ∷ [])
unfolding uart_printf uart_putpad
minus_seven = refl
