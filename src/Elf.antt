-- ===== src/Elf.antt =====
-- kernel/elf-loader.c: how a program's file becomes an image in memory. A file is the list of its
-- bytes; `none` is a PANIC, or an access behind the file or behind the image.

pub mod Bounds
pub mod Loaded
mod Tests
use riscv_os.Prelude.{
  u64, ℕ, zero, suc, ◌+◌, ◌-◌, ◌*◌, ◌/◌, ◌^◌, ℤ, pos, Bool, true, false, not, ◌&&◌, Option, none,
  some, List, [], ◌∷◌, leb, ltb, ◌==◌, if◌then◌else◌, ◌>>=◌, length, drop, get_or,
}
use riscv_os.Text.{strcmp}
use riscv_os.Frames.{Memory, page_size, alloc_pages}
use riscv_os.Process.{Kernel, TrapFrame}
use riscv_os.Image.{Symbols, owner_of, create_init_process, exec_process}

-- A little-endian number of `n` bytes, and the one at an offset of the file.
unfoldable pub le_number : ℕ → List ℕ → Option ℕ
le_number zero bytes = some 0
le_number (suc n) [] = none
le_number (suc n) (b ∷ bytes) = le_number n bytes >>= λ v. some (b + 256 * v)

unfoldable pub read_field : List ℕ → ℕ → ℕ → Option ℕ
unfolding le_number
read_field elf at n = le_number n (drop at elf)

abbrev pub elf_magic : ℕ
elf_magic = 0x464c457f

-- The fields of `Elf64_Ehdr` that the loader reads.
pub record Ehdr : Type 0 where
  pub e_magic : ℕ
  pub e_phoff : ℕ
  pub e_shoff : ℕ
  pub e_phnum : ℕ
  pub e_shnum : ℕ
  pub e_shstrndx : ℕ

unfoldable pub read_ehdr : List ℕ → Option Ehdr
unfolding read_field
read_ehdr elf = read_field elf 0 4 >>= λ magic. read_field elf 32 8 >>= λ phoff.
    read_field elf 40 8 >>= λ shoff. read_field elf 56 2 >>= λ phnum.
    read_field elf 60 2 >>= λ shnum. read_field elf 62 2 >>= λ shstrndx. some (record {
      e_magic = magic;
      e_phoff = phoff;
      e_shoff = shoff;
      e_phnum = phnum;
      e_shnum = shnum;
      e_shstrndx = shstrndx;
    })

-- `Elf64_Phdr`
pub record Phdr : Type 0 where
  pub p_type : ℕ
  pub p_offset : ℕ
  pub p_vaddr : ℕ
  pub p_filesz : ℕ
  pub p_memsz : ℕ

unfoldable pub read_phdr : List ℕ → ℕ → Option Phdr
unfolding read_field
read_phdr elf at = read_field elf at 4 >>= λ type. read_field elf (at + 8) 8 >>= λ offset.
    read_field elf (at + 16) 8 >>= λ vaddr. read_field elf (at + 32) 8 >>= λ filesz.
    read_field elf (at + 40) 8 >>= λ memsz. some (record {
      p_type = type;
      p_offset = offset;
      p_vaddr = vaddr;
      p_filesz = filesz;
      p_memsz = memsz;
    })

unfoldable pub read_phdrs : List ℕ → ℕ → ℕ → Option (List Phdr)
unfolding read_phdr
read_phdrs elf zero at = some []
read_phdrs elf (suc n) at =
    read_phdr elf at >>= λ p. read_phdrs elf n (at + 56) >>= λ ps. some (p ∷ ps)

-- `strcmp` with a name is 0.
abbrev pub is_name : ℤ → Bool
is_name (pos zero) = true
is_name d = false

abbrev pub symtab_name : List ℕ
symtab_name = b'.' ∷ b's' ∷ b'y' ∷ b'm' ∷ b't' ∷ b'a' ∷ b'b' ∷ 0 ∷ []

abbrev pub strtab_name : List ℕ
strtab_name = b'.' ∷ b's' ∷ b't' ∷ b'r' ∷ b't' ∷ b'a' ∷ b'b' ∷ 0 ∷ []

-- The loop over the sections: the rounds left, the header's offset, and what `symtab` and `strtab`
-- point to.
unfoldable pub find_tables : List ℕ → ℕ → ℕ → ℕ → Option ℕ → Option ℕ → Option (Option ℕ × Option ℕ)
unfolding read_field
find_tables elf names zero at symtab strtab = some (symtab, strtab)
find_tables elf names (suc n) at symtab strtab = read_field elf at 4 >>= λ sh_name.
    strcmp (drop (names + sh_name) elf) symtab_name >>= λ is_symtab.
    strcmp (drop (names + sh_name) elf) strtab_name >>= λ is_strtab.
    find_tables elf names n (at + 64) (if is_name is_symtab then some at else symtab)
      (if not (is_name is_symtab) && is_name is_strtab then some at else strtab)

-- The loop over the symbols: the rounds left, and the symbol's offset.
unfoldable pub find_symbol : List ℕ → List ℕ → ℕ → ℕ → ℕ → Option ℕ
unfolding read_field
find_symbol elf name strings zero at = none
find_symbol elf name strings (suc n) at = read_field elf at 4 >>= λ st_name.
    strcmp (drop (strings + st_name) elf) name >>= λ order.
    if is_name order then read_field elf (at + 8) 8 else find_symbol elf name strings n (at + 24)

unfoldable pub get_symbol_address : List ℕ → List ℕ → Option ℕ
unfolding read_ehdr find_tables find_symbol
get_symbol_address elf name = read_ehdr elf >>= λ ehdr.
    read_field elf (ehdr.e_shoff + ehdr.e_shstrndx * 64 + 24) 8 >>= λ names.
    find_tables elf names ehdr.e_shnum ehdr.e_shoff none none >>= λ (symtab, strtab).
    symtab >>= λ sym. strtab >>= λ str. read_field elf (sym + 24) 8 >>= λ symbols.
    read_field elf (sym + 32) 8 >>= λ size.
    read_field elf (str + 24) 8 >>= λ strings. find_symbol elf name strings (size / 24) symbols

-- The two bounds of the segments to load, from the values so far; `p_type` is PT_LOAD.
unfoldable pub bounds : List Phdr → ℕ × ℕ → ℕ × ℕ
bounds [] b = b
bounds (p ∷ ps) (low, high) =
    let end = u64 (p.p_vaddr + p.p_memsz) in
    bounds ps (
      if p.p_type == 1
      then (if ltb p.p_vaddr low then p.p_vaddr else low, if ltb high end then end else high)
      else (low, high))

-- `memcpy` of a segment into the image, which is a function from offsets to bytes.
unfoldable pub copy_segment : List ℕ → ℕ → ℕ → Phdr → (ℕ → ℕ) → Option (ℕ → ℕ)
copy_segment elf low size p image =
    let dest = u64 (p.p_vaddr + (2 ^ 64 - low)) in
    if leb (dest + p.p_filesz) size && leb (p.p_offset + p.p_filesz) (length elf)
    then some (λ o.
      if leb dest o && ltb o (dest + p.p_filesz)
      then get_or elf (p.p_offset + (o - dest)) 0
      else image o)
    else none

unfoldable pub copy_segments : List ℕ → ℕ → ℕ → List Phdr → (ℕ → ℕ) → Option (ℕ → ℕ)
unfolding copy_segment
copy_segments elf low size [] image = some image
copy_segments elf low size (p ∷ ps) image =
    if not (p.p_type == 1)
    then copy_segments elf low size ps image
    else (copy_segment elf low size p image >>= λ image'. copy_segments elf low size ps image')

-- The word of 8 bytes at an offset.
unfoldable pub word_at : (ℕ → ℕ) → ℕ → ℕ → ℕ
word_at image o zero = 0
word_at image o (suc n) = image o + 256 * word_at image (o + 1) n

-- Memory with an image of `size` bytes at an address.
unfoldable pub place_image : ℕ → ℕ → (ℕ → ℕ) → Memory → Memory
unfolding word_at
place_image pa size image m = record m {
  word = λ a. if leb pa a && ltb a (pa + size) then word_at image (a - pa) 8 else m.word a;
}

-- The names of the symbols
abbrev pub user_name : List ℕ → List ℕ
user_name tail = b'_' ∷ b'_' ∷ b'u' ∷ b's' ∷ b'e' ∷ b'r' ∷ b'_' ∷ tail

abbrev pub stack_top_name : List ℕ
stack_top_name = user_name (b's' ∷ b't' ∷ b'a' ∷ b'c' ∷ b'k' ∷ b'_' ∷ b't' ∷ b'o' ∷ b'p' ∷ 0 ∷ [])

abbrev pub stack_bottom_name : List ℕ
stack_bottom_name =
    user_name
      (b's' ∷ b't' ∷ b'a' ∷ b'c' ∷ b'k' ∷ b'_' ∷ b'b' ∷ b'o' ∷ b't' ∷ b't' ∷ b'o' ∷ b'm' ∷ 0 ∷ [])

abbrev pub heap_start_name : List ℕ
heap_start_name =
    user_name (b'h' ∷ b'e' ∷ b'a' ∷ b'p' ∷ b'_' ∷ b's' ∷ b't' ∷ b'a' ∷ b'r' ∷ b't' ∷ 0 ∷ [])

abbrev pub heap_end_name : List ℕ
heap_end_name = user_name (b'h' ∷ b'e' ∷ b'a' ∷ b'p' ∷ b'_' ∷ b'e' ∷ b'n' ∷ b'd' ∷ 0 ∷ [])

unfoldable pub read_symbols : List ℕ → Option Symbols
unfolding get_symbol_address
read_symbols elf = get_symbol_address elf stack_top_name >>= λ top.
    get_symbol_address elf stack_bottom_name >>= λ bottom.
    get_symbol_address elf heap_start_name >>= λ heap_start.
    get_symbol_address elf heap_end_name >>= λ heap_end. some (record {
      g_user_stack_top = top;
      g_user_stack_bottom = bottom;
      g_user_heap_start = heap_start;
    })

-- The segments' bounds in whole pages: the lower one, and the size between them.
abbrev pub image_bounds : ℕ × ℕ → ℕ × ℕ
image_bounds (low, high) =
    let start = low / page_size * page_size in
    (start, u64 (u64 (high + (page_size - 1)) / page_size * page_size + (2 ^ 64 - start)))

-- The image in memory: its address and its size.
unfoldable pub flat_image : ℕ → List ℕ → Kernel → Option (ℕ × ℕ × Kernel)
unfolding read_ehdr read_phdrs bounds copy_segments place_image owner_of
flat_image ram_end elf k = read_ehdr elf >>= λ ehdr.
    if not (ehdr.e_magic == elf_magic)
    then none
    else read_phdrs elf ehdr.e_phnum ehdr.e_phoff >>= λ phdrs.
        (let (low, size) = image_bounds (bounds phdrs (2 ^ 64 - 1, 0)) in
          alloc_pages ram_end (owner_of k) (u64 (size + (page_size - 1)) / page_size) k.memory
          >>= λ (pa, m). copy_segments elf low size phdrs (λ o. 0) >>= λ image.
              some (pa, size, record k { memory = place_image pa size image m }))

-- With the flag CREATE_PROCESS, and with EXEC_PROCESS.
unfoldable pub extract_to_create :
    (kernel_base ram_end user_entry tf_ksp : ℕ) → List ℕ → Kernel → Option (ℕ × Kernel)
unfolding flat_image read_symbols
extract_to_create kernel_base ram_end user_entry tf_ksp elf k =
    flat_image ram_end elf k >>= λ (pa, size, k').
    read_symbols elf >>= λ s. create_init_process kernel_base ram_end user_entry tf_ksp s pa size k'

unfoldable pub extract_to_exec :
    (kernel_base ram_end : ℕ) → TrapFrame → List ℕ → Kernel → Option (Symbols × ℕ × Kernel)
unfolding flat_image read_symbols
extract_to_exec kernel_base ram_end old_frame elf k = flat_image ram_end elf k >>= λ (pa, size, k').
    read_symbols elf >>= λ s.
    exec_process kernel_base ram_end s old_frame pa size k' >>= λ (cur, k''). some (s, cur, k'')
