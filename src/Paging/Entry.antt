-- ===== src/Paging/Entry.antt =====
-- kernel/page.c: what the bits of an entry say.
use riscv_os.Prelude.{ℕ, ◌+◌, ◌%◌, ◌^◌, ◌<◌, ◌≡◌, ◌≢◌, true, ◌||◌, arith}
use riscv_os.Frames.{page_size}
use riscv_os.Paging.{Flags, flag_bits, valid, user, permits, pte_to_pa, pa_to_pte, slot}

pub flag_bits-lt : (f : Flags) → flag_bits f < 32
unfolding flag_bits
flag_bits-lt f = ground arith

pub valid-flag_bits : (pa : ℕ) (f : Flags) → valid (pa_to_pte pa + flag_bits f) ≡ true
unfolding flag_bits
valid-flag_bits pa f = ground arith

pub user-flag_bits : (pa : ℕ) (f : Flags) → user (pa_to_pte pa + flag_bits f) ≡ f.u
unfolding flag_bits
user-flag_bits pa f = ground arith

pub permits-flag_bits :
    (pa : ℕ) (f : Flags) → permits (pa_to_pte pa + flag_bits f) ≡ (f.r || (f.w || f.x))
unfolding flag_bits
permits-flag_bits pa f = ground arith

pub pte_to_pa-flag_bits :
    (pa : ℕ) (f : Flags)
    → pa % page_size ≡ 0
    → pa < 2 ^ 64
    → pte_to_pa (pa_to_pte pa + flag_bits f) ≡ pa
pte_to_pa-flag_bits pa f e small = omega (arith, flag_bits-lt f)

-- The entry of a new table.
pub table_entry :
    (page : ℕ)
    → page % page_size ≡ 0
    → page < 2 ^ 64
    → (valid (pa_to_pte page + 1) ≡ true) × (pte_to_pa (pa_to_pte page + 1) ≡ page)
table_entry page e small = (ground arith, omega arith)

-- Entries of two tables lie at two addresses, and so do two entries of one.
pub slots_apart :
    (p q i j : ℕ)
    → p % page_size ≡ 0
    → q % page_size ≡ 0
    → i < 512
    → j < 512
    → p ≢ q
    → slot p i ≢ slot q j
slots_apart p q i j ep eq hi hj ne = omega arith
