-- ===== src/Archive/Size.antt =====
-- kernel/tar-parser.c: the size of a file in its header.
use riscv_os.Prelude.{
  u64, ℕ, zero, suc, ◌+◌, ◌-◌, ◌*◌, ◌/◌, ◌%◌, ◌^◌, ◌≤◌, ◌<◌, ◌≡◌, ap, ◌∙◌, some, List, ◌∷◌, arith,
}
use riscv_os.Archive.{octal_loop}

-- `n` octal digits of a number, before other bytes, as an archive's header holds them.
unfoldable pub octal_digits : ℕ → ℕ → List ℕ → List ℕ
octal_digits zero v acc = acc
octal_digits (suc n) v acc = octal_digits n (v / 8) ((48 + v % 8) ∷ acc)

-- The numbers of `n` octal digits lie below it.
unfoldable pub octal_limit : ℕ → ℕ
octal_limit zero = 1
octal_limit (suc n) = 8 * octal_limit n

octal_step :
    (j v : ℕ) (acc : List ℕ)
    → v < 2 ^ 64
    → octal_loop (suc j) ((48 + v % 8) ∷ acc) (v / 8) ≡ octal_loop j acc v
unfolding octal_loop
octal_step j v acc small =
    let e : u64 (u64 (v / 8 * 8) + (48 + v % 8) + (2 ^ 64 - 48)) ≡ v = omega arith in
    ap (octal_loop j acc) e

octal_loop-digits :
    (n j v : ℕ) (acc : List ℕ)
    → v < octal_limit n
    → v < 2 ^ 64
    → octal_loop (n + j) (octal_digits n v acc) 0 ≡ octal_loop j acc v
unfolding octal_limit octal_digits
octal_loop-digits zero j v acc h small =
    let e : 0 ≡ v = omega arith in
    let ej : zero + j ≡ j = omega arith in ap (λ i. octal_loop i acc 0) ej ∙ ap (octal_loop j acc) e
octal_loop-digits (suc n) j v acc h small =
    let ej : suc n + j ≡ n + suc j = omega arith in
    ap (λ i. octal_loop i (octal_digits n (v / 8) ((48 + v % 8) ∷ acc)) 0) ej
    ∙ octal_loop-digits n (suc j) (v / 8) ((48 + v % 8) ∷ acc) (omega arith) (omega arith)
    ∙ octal_step j v acc small

pub octal_limit-11 : octal_limit 11 ≤ 2 ^ 33
unfolding octal_limit
octal_limit-11 = omega arith

-- The loop of `tarfs_lookup` reads from the eleven octal digits of a file's size that size, whatever
-- stands behind them.
pub octal_loop-octal_digits :
    (v : ℕ) (rest : List ℕ) → v < octal_limit 11 → octal_loop 11 (octal_digits 11 v rest) 0 ≡ some v
unfolding octal_loop
octal_loop-octal_digits v rest h = octal_loop-digits 11 0 v rest h (omega (arith, octal_limit-11))
