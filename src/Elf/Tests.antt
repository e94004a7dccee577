-- ===== src/Elf/Tests.antt =====
-- kernel/elf-loader.c: a file of five bytes with two segments and a header of another kind.
use riscv_os.Prelude.{ℕ, ◌≡◌, refl, inl, some, List, [], ◌∷◌, arith}
use riscv_os.Elf.{Phdr, copy_segments}
use riscv_os.Elf.Bounds.{AreSegments}
use riscv_os.Elf.Loaded.{AreApart, Loaded, Untouched, whole_image, copy_segments-Loaded}

abbrev code : Phdr
code = record { p_type = 1; p_offset = 0; p_vaddr = 0x1000010; p_filesz = 3; p_memsz = 8 }

abbrev variables : Phdr
variables = record { p_type = 1; p_offset = 3; p_vaddr = 0x1001000; p_filesz = 2; p_memsz = 2 }

abbrev note : Phdr
note = record { p_type = 4; p_offset = 0; p_vaddr = 0; p_filesz = 100; p_memsz = 100 }

abbrev program : List Phdr
program = note ∷ code ∷ variables ∷ []

abbrev file : List ℕ
file = 7 ∷ 8 ∷ 9 ∷ 4 ∷ 5 ∷ []

program-AreSegments : AreSegments file program
program-AreSegments = (
  λ h. absurd (ground (arith, h)),
  (
    λ _. record { in_file = omega arith; room = omega arith; below = omega arith },
    (λ _. record { in_file = omega arith; room = omega arith; below = omega arith }, _),
  ),
)

program-AreApart : AreApart program
program-AreApart =
    (λ h. absurd (ground (arith, h)), (λ _. (λ _. inl (omega arith), _), (λ _. _, _)))

copy_segments-Loaded_example :
    (image : ℕ → ℕ) × (copy_segments file
        (whole_image program).0
        (whole_image program).1
        program
        (λ _. 0)
      ≡ some image)
    × Loaded file (whole_image program).0 image program
    × ((o : ℕ) → Untouched (whole_image program).0 o program → image o ≡ 0)
copy_segments-Loaded_example =
    copy_segments-Loaded file program program-AreSegments program-AreApart

-- Two pages from the lower bound on
two_pages : whole_image program ≡ (0x1000000, 0x2000)
unfolding riscv_os.Elf.bounds
two_pages = refl
