-- ===== src/Archive/Tests.antt =====
-- kernel/tar-parser.c: the size of a file, and an archive of two files.
use mathlib.Core.Option
use riscv_os.Prelude.{ℕ, ◌<◌, ◌≡◌, ◌≢◌, refl, some, List, [], ◌∷◌, arith, replicate}
use riscv_os.Text.Compare.{IsText}
use riscv_os.Archive.{tarfs_lookup}
use riscv_os.Archive.Size.{octal_limit}
use riscv_os.Archive.Entries.{Entry, IsEntry, archive_of, find_file, contents}
use riscv_os.Archive.Lookup.{tarfs_lookup-find_file}

-- A file of three bytes with a name of two
abbrev file : ℕ → ℕ → Entry
file c d = record {
  name = c ∷ d ∷ [];
  between = replicate 121 0;
  size = 3;
  after = replicate 377 0;
  blocks = c ∷ d ∷ 33 ∷ replicate 509 0;
}

three_bytes : 3 < octal_limit 11
unfolding octal_limit
three_bytes = omega arith

list_named : (file b'l' b's').name ≢ []
list_named e = ground (arith, e)

shell_named : (file b's' b'h').name ≢ []
shell_named e = ground (arith, e)

list-IsEntry : IsEntry (file b'l' b's')
list-IsEntry = record {
  text = ground arith;
  named = list_named;
  field = refl;
  header = refl;
  small = three_bytes;
  filled = refl;
}

shell-IsEntry : IsEntry (file b's' b'h')
shell-IsEntry = record {
  text = ground arith;
  named = shell_named;
  field = refl;
  header = refl;
  small = three_bytes;
  filled = refl;
}

abbrev two_files : List Entry
two_files = file b'l' b's' ∷ file b's' b'h' ∷ []

shell_IsText : IsText (b's' ∷ b'h' ∷ [])
shell_IsText = ground arith

tarfs_lookup-find_file_example :
    Option.map
      (Option.map (contents (archive_of two_files (replicate 1024 0))))
      (tarfs_lookup 3 (archive_of two_files (replicate 1024 0)) (b's' ∷ b'h' ∷ 0 ∷ []))
    ≡ some (find_file two_files (b's' ∷ b'h' ∷ []))
tarfs_lookup-find_file_example =
    tarfs_lookup-find_file two_files (replicate 1024 0) (b's' ∷ b'h' ∷ []) [] 3
      (list-IsEntry, (shell-IsEntry, _)) shell_IsText refl (omega arith)

shell_found : find_file two_files (b's' ∷ b'h' ∷ []) ≡ some (b's' ∷ b'h' ∷ 33 ∷ [])
unfolding find_file
shell_found = refl
