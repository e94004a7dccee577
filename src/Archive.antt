-- ===== src/Archive.antt =====
-- kernel/tar-parser.c: `tarfs_lookup`. The archive is the list of its bytes, and a place in it is an
-- offset; `none` is a read behind its end, or an archive that does not end within the fuel.
pub mod Size
pub mod Entries
pub mod Lookup
mod Tests
use riscv_os.Prelude.{
  u64, ℕ, zero, suc, ◌+◌, ◌-◌, ◌*◌, ◌/◌, ◌^◌, ℤ, pos, negsuc, Bool, true, false, Option, none, some,
  List, [], ◌∷◌, ltb, ◌==◌, if◌then◌else◌, ◌>>=◌, length, drop, get_or, not,
}
use riscv_os.Text.{strcmp}

abbrev pub tar_block_size : ℕ
tar_block_size = 512

-- The place of `size` in `struct tar_header`
abbrev pub size_offset : ℕ
size_offset = 124

-- The loop over the digits: the rounds left, the bytes, and `size`.
unfoldable pub octal_loop : ℕ → List ℕ → ℕ → Option ℕ
octal_loop zero bytes size = some size
octal_loop (suc n) [] size = none
octal_loop (suc n) (c ∷ bytes) size = octal_loop n bytes (u64 (u64 (size * 8) + c + (2 ^ 64 - 48)))

-- The size in the header at an offset.
unfoldable pub header_size : List ℕ → ℕ → Option ℕ
unfolding octal_loop
header_size archive at = octal_loop 11 (drop (at + size_offset) archive) 0

-- `(1 + blocks) * TAR_BLOCK_SIZE`
abbrev pub entry_bytes : ℕ → ℕ
entry_bytes size = u64 ((1 + u64 (size + (tar_block_size - 1)) / tar_block_size) * tar_block_size)

abbrev pub is_zero : ℤ → Bool
is_zero (pos n) = n == 0
is_zero (negsuc n) = false

-- The offset of the file's contents and its size; the inner `none` is NULL.
unfoldable pub lookup_loop : ℕ → List ℕ → List ℕ → ℕ → Option (Option (ℕ × ℕ))
unfolding header_size
lookup_loop zero archive filename at = none
lookup_loop (suc fuel) archive filename at =
    if not (ltb at (length archive))
    then some none
    else if get_or archive at 0 == 0
    then some none
    else (strcmp (drop at archive) filename >>= λ order. header_size archive at >>= λ size.
        (let next = lookup_loop fuel archive filename (at + entry_bytes size) in
          if is_zero order then some (some (at + tar_block_size, size)) else next))

unfoldable pub tarfs_lookup : ℕ → List ℕ → List ℕ → Option (Option (ℕ × ℕ))
unfolding lookup_loop
tarfs_lookup fuel archive filename = lookup_loop fuel archive filename 0
