-- ===== src/Archive/Lookup.antt =====
-- kernel/tar-parser.c: `tarfs_lookup` finds the file of a name.
use mathlib.Core.Option
use riscv_os.Prelude.{
  ℕ, zero, suc, ◌+◌, ◌≤◌, ◌<◌, ◌≡◌, refl, ap, sym, ◌∙◌, ℤ, false, Option, none, some, List, [], ◌∷◌,
  ◌++◌, append_assoc, ltb, ◌==◌, lt→ltb, if◌then◌else◌, arith, length, length-append, take, drop,
  get_or, Bool-cases, inl, inr,
}
use riscv_os.Text.{strcmp}
use riscv_os.Text.Compare.{IsText}
use riscv_os.Archive.{header_size, entry_bytes, is_zero, lookup_loop, tarfs_lookup}
use riscv_os.Archive.Size.{octal_digits}
use riscv_os.Archive.Entries.{
  Entry, IsEntry, AreEntries, name_field, entry_before, archive_of, same_text, find_file, contents,
  drop-length, take-append_le, get_or-append, header_size-entry, strcmp-entry, first_byte-entry,
  length-entry_before, entry_bytes-blocks, entry_before-octal_digits, length-header,
}

-- One round at a file, by what the comparison says.
lookup_loop-if :
    (fuel : ℕ) (archive filename : List ℕ) (at size : ℕ) (z : ℤ)
    → at < length archive
    → (get_or archive at 0 == 0) ≡ false
    → strcmp (drop at archive) filename ≡ some z
    → header_size archive at ≡ some size
    → lookup_loop (suc fuel) archive filename at ≡ (
        if is_zero z
        then some (some (at + 512, size))
        else lookup_loop fuel archive filename (at + entry_bytes size))
unfolding lookup_loop
lookup_loop-if fuel archive filename at size z lt nz ez es =
    rw (lt→ltb at (length archive) lt, nz, ez, es) refl

-- The end: no byte is left, or a zero comes.
lookup_loop-end :
    (fuel : ℕ) (before end filename : List ℕ)
    → get_or end 0 0 ≡ 0
    → lookup_loop (suc fuel) (before ++ end) filename (length before) ≡ some none
unfolding lookup_loop
lookup_loop-end fuel before end filename h =
    let z : get_or (before ++ end) (length before) 0 ≡ 0 = get_or-append before end ∙ h in
    elim (Bool-cases (ltb (length before) (length (before ++ end)))) [
      | inl e ↦ rw (e, z) refl
      | inr e ↦ rw e refl
    ]

drop-before : (before xs : List ℕ) → drop (length before) (before ++ xs) ≡ xs
drop-before [] xs = refl
drop-before (b ∷ before) xs = drop-before before xs

abbrev Result : Type 0
Result = Option (Option (ℕ × ℕ))

-- What was found, as bytes
abbrev read_result : List ℕ → Result → Option (Option (List ℕ))
read_result archive o = Option.map (Option.map (contents archive)) o

-- The contents stand one block behind the header.
contents-entry :
    (before : List ℕ) (e : Entry) (rest : List ℕ)
    → IsEntry e
    → contents (before ++ entry_before e rest) (length before + 512, e.size) ≡ take e.size e.blocks
contents-entry before e rest h =
    let header = name_field e ++ octal_digits 11 e.size e.after in
    let enough : e.size ≤ length e.blocks = omega (arith, h.filled) in
    ap (take e.size) (
      drop-length before (entry_before e rest) 512
      ∙ ap (drop 512) (entry_before-octal_digits e rest)
      ∙ ap (λ n. drop n (header ++ (e.blocks ++ rest))) (sym (length-header e h))
      ∙ drop-before header (e.blocks ++ rest))
    ∙ take-append_le e.size e.blocks rest enough

-- The files behind the first one
abbrev past : List ℕ → Entry → List ℕ
past before e = before ++ ((name_field e ++ octal_digits 11 e.size e.after) ++ e.blocks)

past-eq :
    (before : List ℕ) (e : Entry) (rest : List ℕ)
    → before ++ entry_before e rest ≡ past before e ++ rest
past-eq before e rest =
    let header = name_field e ++ octal_digits 11 e.size e.after in
    ap (λ l. before ++ l)
      (entry_before-octal_digits e rest ∙ sym (append_assoc header e.blocks rest))
    ∙ sym (append_assoc before (header ++ e.blocks) rest)

length-past :
    (before : List ℕ) (e : Entry)
    → IsEntry e
    → length before + entry_bytes e.size ≡ length (past before e)
length-past before e h =
    let header = name_field e ++ octal_digits 11 e.size e.after in
    ap (λ n. length before + n)
      (entry_bytes-blocks e h
        ∙ ap (λ n. n + length e.blocks) (sym (length-header e h))
        ∙ sym (length-append header e.blocks))
    ∙ sym (length-append before (header ++ e.blocks))

length-entry :
    (before : List ℕ) (e : Entry) (rest : List ℕ)
    → IsEntry e
    → length before < length (before ++ entry_before e rest)
length-entry before e rest h =
    let n = length-append before (entry_before e rest) in
    let m = length-entry_before e rest h in omega (arith, n, m)

-- The round at a file that stands behind other bytes.
lookup_loop-entry :
    (fuel : ℕ) (before : List ℕ) (e : Entry) (rest name r : List ℕ)
    → IsEntry e
    → IsText name
    → lookup_loop (suc fuel) (before ++ entry_before e rest) (name ++ 0 ∷ r) (length before) ≡ (
        if same_text e.name name
        then some (some (length before + 512, e.size))
        else lookup_loop fuel
            (before ++ entry_before e rest)
            (name ++ 0 ∷ r)
            (length before + entry_bytes e.size))
lookup_loop-entry fuel before e rest name r h t =
    let (z, ez, eb) = strcmp-entry e rest name r h t in
    lookup_loop-if fuel (before ++ entry_before e rest) (name ++ 0 ∷ r) (length before) e.size z
      (length-entry before e rest h) (first_byte-entry before e rest h)
      (ap (λ l. strcmp l (name ++ 0 ∷ r)) (drop-before before (entry_before e rest)) ∙ ez)
      (header_size-entry before e rest h)
    ∙ ap
        (λ b.
          if b
          then some (some (length before + 512, e.size))
          else lookup_loop fuel (before ++ entry_before e rest) (name ++ 0 ∷ r)
              (length before + entry_bytes e.size))
        eb

-- The search goes on behind the blocks of a file.
pass_entry :
    (fuel : ℕ) (before : List ℕ) (e : Entry) (rest filename : List ℕ) (found : Option (List ℕ))
    → IsEntry e
    → read_result
        (past before e ++ rest)
        (lookup_loop fuel (past before e ++ rest) filename (length (past before e)))
      ≡ some found
    → read_result (before ++ entry_before e rest) (
        lookup_loop fuel
          (before ++ entry_before e rest)
          filename
          (length before + entry_bytes e.size))
      ≡ some found
pass_entry fuel before e rest filename found h i =
    ap (λ l. read_result l (lookup_loop fuel l filename (length before + entry_bytes e.size)))
      (past-eq before e rest)
    ∙ ap
        (λ n.
          read_result (past before e ++ rest) (lookup_loop fuel (past before e ++ rest) filename n))
        (length-past before e h)
    ∙ i

lookup_loop-find_file :
    (es : List Entry) (fuel : ℕ) (before end name r : List ℕ)
    → AreEntries es
    → IsText name
    → get_or end 0 0 ≡ 0
    → length es < fuel
    → read_result
        (before ++ archive_of es end)
        (lookup_loop fuel (before ++ archive_of es end) (name ++ 0 ∷ r) (length before))
      ≡ some (find_file es name)
unfolding archive_of find_file
lookup_loop-find_file es zero before end name r hs t z f = absurd (omega arith)
lookup_loop-find_file [] (suc fuel) before end name r hs t z f =
    ap (read_result (before ++ end)) (lookup_loop-end fuel before end (name ++ 0 ∷ r) z)
lookup_loop-find_file (e ∷ es) (suc fuel) before end name r (h, hs) t z f =
    let rest = archive_of es end in
    let archive = before ++ entry_before e rest in
    ap (read_result archive) (lookup_loop-entry fuel before e rest name r h t)
    ∙ elim (Bool-cases (same_text e.name name)) [
      | inl s ↦ rw s (ap (λ c. some (some c)) (contents-entry before e rest h))
      | inr s ↦ rw s (
          pass_entry fuel before e rest (name ++ 0 ∷ r) (find_file es name) h
            (lookup_loop-find_file es fuel (past before e) end name r hs t z (omega (arith, f))))
    ]

-- In an archive of files as `tar` writes them, which ends with a zero byte or with its last file,
-- `tarfs_lookup` of a terminated name ends, reads only inside the archive, and the bytes at the
-- place and of the size that it gives are the contents of the first file with that name; it gives
-- null if there is none. A round more than there are files is enough.
pub tarfs_lookup-find_file :
    (es : List Entry) (end name r : List ℕ) (fuel : ℕ)
    → AreEntries es
    → IsText name
    → get_or end 0 0 ≡ 0
    → length es < fuel
    → Option.map
        (Option.map (contents (archive_of es end)))
        (tarfs_lookup fuel (archive_of es end) (name ++ 0 ∷ r))
      ≡ some (find_file es name)
unfolding tarfs_lookup
tarfs_lookup-find_file es end name r fuel hs t z f =
    lookup_loop-find_file es fuel [] end name r hs t z f
