-- ===== src/Paging/Address.antt =====
-- kernel/page.c: the walk to the entry of an address.
use riscv_os.Prelude.{
  ℕ, ◌+◌, ◌%◌, ◌^◌, ◌<◌, ◌≡◌, ◌≢◌, true, false, ◌||◌, arith, some, List, leb, ne→==_false,
}
use riscv_os.Frames.{Memory, page_size}
use riscv_os.Paging.{
  Flags, flag_bits, pa_to_pte, slot, px2, px1, px0, walk, leaf_address, walkaddr, maxva,
}
use riscv_os.Paging.Entry.{valid-flag_bits, permits-flag_bits, pte_to_pa-flag_bits}
use riscv_os.Paging.Map.{Tables}

-- The offset in a page does not change its tables.
pub px-offset :
    (va off : ℕ)
    → va % page_size ≡ 0
    → off < page_size
    → (px2 (va + off) ≡ px2 va) × (px1 (va + off) ≡ px1 va) × (px0 (va + off) ≡ px0 va)
px-offset va off ev small = (omega arith, omega arith, omega arith)

pub walk-Tables :
    (root va off t1 t0 : ℕ) (m : Memory) (l : List ℕ)
    → Tables m l root va t1 t0
    → va % page_size ≡ 0
    → off < page_size
    → va + off < maxva
    → walk root (va + off) m ≡ some (slot t0 (px0 va))
unfolding walk
walk-Tables root va off t1 t0 m l t ev small low =
    let (e2, e1, e0) = px-offset va off ev small in
    let test : leb maxva (va + off) ≡ false = ground arith in
    rw (test, e2, e1, e0) (rw (t.valid2, t.leads2) (rw (t.valid1, t.leads1)))

pub leaf_address-flag_bits :
    (va off pa : ℕ) (flags : Flags)
    → va % page_size ≡ 0
    → off < page_size
    → pa % page_size ≡ 0
    → pa + off < 2 ^ 64
    → (flags.r || (flags.w || flags.x)) ≡ true
    → leaf_address (va + off) (pa_to_pte pa + flag_bits flags) ≡ pa + off
unfolding leaf_address
leaf_address-flag_bits va off pa flags ev small ep fits some_permission =
    rw
      (
        valid-flag_bits pa flags,
        permits-flag_bits pa flags,
        some_permission,
        pte_to_pa-flag_bits pa flags ep (omega arith),
      )
      (omega arith)

pub walkaddr-walk :
    (kernel_base root va a : ℕ) (m : Memory)
    → va < kernel_base
    → walk root va m ≡ some a
    → a ≢ 0
    → walkaddr kernel_base root va m ≡ some (leaf_address va (m.word a))
unfolding walkaddr
walkaddr-walk kernel_base root va a m low e ne =
    let test : leb kernel_base va ≡ false = ground arith in
    rw (test, e, walkaddr) (rw (ne→==_false a 0 ne))
