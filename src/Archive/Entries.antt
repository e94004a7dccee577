-- ===== src/Archive/Entries.antt =====
-- kernel/tar-parser.c: an archive as a list of files, and `tarfs_lookup` against the search in it.
use riscv_os.Prelude.{
  u64, ℕ, zero, suc, ◌+◌, ◌-◌, ◌*◌, ◌/◌, ◌^◌, ◌≤◌, ◌<◌, ◌≡◌, ◌≢◌, refl, ap, sym, subst, ◌∙◌, ℤ, pos,
  negsuc, Bool, true, false, ◌&&◌, Option, none, some, List, [], ◌∷◌, ◌++◌, append_assoc, ◌==◌,
  ==→eq, ==_refl, ne→==_false, if◌then◌else◌, arith, length, length-append, take, drop, get_or,
  Bool-cases, Option-cases, inl, inr,
}
use riscv_os.Text.{strcmp}
use riscv_os.Text.Compare.{IsText, Decides, strcmp-Decides}
use riscv_os.Text.Calls.{drop-append}
use riscv_os.Archive.{octal_loop, tar_block_size, size_offset, header_size, entry_bytes, is_zero}
use riscv_os.Archive.Size.{octal_digits, octal_limit, octal_limit-11, octal_loop-octal_digits}

-- A file of an archive: its name, the bytes of the header up to the size, the size, the rest of the
-- header, and the blocks of the contents.
pub record Entry : Type 0 where
  pub name : List ℕ
  pub between : List ℕ
  pub size : ℕ
  pub after : List ℕ
  pub blocks : List ℕ

abbrev pub name_field : Entry → List ℕ
name_field e = e.name ++ 0 ∷ e.between

-- The bytes of a file, and the archive behind them
unfoldable pub entry_before : Entry → List ℕ → List ℕ
unfolding octal_digits
entry_before e rest = name_field e ++ octal_digits 11 e.size (e.after ++ (e.blocks ++ rest))

-- The archive of files that ends with `end`.
unfoldable pub archive_of : List Entry → List ℕ → List ℕ
unfolding entry_before
archive_of [] end = end
archive_of (e ∷ es) end = entry_before e (archive_of es end)

-- A file as `tar` writes it: the name is not empty, the size stands at its offset in a header of one
-- block, and the contents fill whole blocks.
pub record IsEntry (e : Entry) : Type 0 where
  pub text : IsText e.name
  pub named : e.name ≢ []
  pub field : length (name_field e) ≡ size_offset
  pub header : length (name_field e) + (11 + length e.after) ≡ tar_block_size
  pub small : e.size < octal_limit 11
  pub filled : length e.blocks ≡ (e.size + (tar_block_size - 1)) / tar_block_size * tar_block_size

abbrev pub AreEntries : List Entry → Type 0
AreEntries [] = Unit {0}
AreEntries (e ∷ es) = IsEntry e × AreEntries es

unfoldable pub same_text : List ℕ → List ℕ → Bool
same_text [] [] = true
same_text [] (y ∷ ys) = false
same_text (x ∷ xs) [] = false
same_text (x ∷ xs) (y ∷ ys) = (x == y) && same_text xs ys

-- The contents of the first file with a name.
unfoldable pub find_file : List Entry → List ℕ → Option (List ℕ)
unfolding same_text
find_file [] name = none
find_file (e ∷ es) name =
    if same_text e.name name then some (take e.size e.blocks) else find_file es name

-- The bytes at an offset with a size
abbrev pub contents : List ℕ → ℕ × ℕ → List ℕ
contents archive (at, size) = take size (drop at archive)

same_text_refl : (xs : List ℕ) → same_text xs xs ≡ true
unfolding same_text
same_text_refl [] = refl
same_text_refl (x ∷ xs) = rw (==_refl x, same_text_refl xs) refl

both_true : (a b : Bool) → (a && b) ≡ true → (a ≡ true) × (b ≡ true)
both_true a b h = ground arith

same_text→eq : (xs ys : List ℕ) → same_text xs ys ≡ true → xs ≡ ys
unfolding same_text
same_text→eq [] [] h = refl
same_text→eq [] (y ∷ ys) h = ground arith
same_text→eq (x ∷ xs) [] h = ground arith
same_text→eq (x ∷ xs) (y ∷ ys) h =
    let (hx, hs) = both_true (x == y) (same_text xs ys) h in
    let ex : x ≡ y = ==→eq x y hx in let es : xs ≡ ys = same_text→eq xs ys hs in cc

is_zero→eq : (z : ℤ) → is_zero z ≡ true → z ≡ pos 0
is_zero→eq (pos n) h = ap pos (==→eq n 0 h)
is_zero→eq (negsuc n) h = ground arith

is_zero-same_text : (z : ℤ) (xs ys : List ℕ) → Decides (some z) xs ys → is_zero z ≡ same_text xs ys
is_zero-same_text z xs ys d = elim (Bool-cases (is_zero z)) [
  | inl e ↦ e ∙ sym (subst (λ l. same_text xs l ≡ true) (d.0 (is_zero→eq z e)) (same_text_refl xs))
  | inr e ↦ elim (Bool-cases (same_text xs ys)) [
    | inl h ↦
        let t : true ≡ false = sym (ap is_zero (d.1 (same_text→eq xs ys h))) ∙ e in
        absurd (ground (arith, t))
    | inr h ↦ e ∙ sym h
  ]
]

module _ {ℓ} {A : Type ℓ} where
  pub drop-length : (xs ys : List A) (n : ℕ) → drop (length xs + n) (xs ++ ys) ≡ drop n ys
  drop-length [] ys n = ap (λ k. drop k ys) (omega arith)
  drop-length (x ∷ xs) ys n =
      let e : suc (length xs) + n ≡ suc (length xs + n) = omega arith in
      ap (λ k. drop k (x ∷ (xs ++ ys))) e ∙ drop-length xs ys n

  pub take-append_le : (n : ℕ) (xs ys : List A) → n ≤ length xs → take n (xs ++ ys) ≡ take n xs
  take-append_le zero xs ys h = refl
  take-append_le (suc n) [] ys h = absurd (omega arith)
  take-append_le (suc n) (x ∷ xs) ys h = ap (λ l. x ∷ l) (take-append_le n xs ys (omega arith))

pub get_or-append : (xs ys : List ℕ) → get_or (xs ++ ys) (length xs) 0 ≡ get_or ys 0 0
get_or-append [] ys = refl
get_or-append (x ∷ xs) ys = get_or-append xs ys

length-octal_digits : (n v : ℕ) (acc : List ℕ) → length (octal_digits n v acc) ≡ n + length acc
unfolding octal_digits
length-octal_digits zero v acc = omega arith
length-octal_digits (suc n) v acc = length-octal_digits n (v / 8) _ ∙ omega arith

octal_digits-append :
    (n v : ℕ) (acc rest : List ℕ) → octal_digits n v (acc ++ rest) ≡ octal_digits n v acc ++ rest
unfolding octal_digits
octal_digits-append zero v acc rest = refl
octal_digits-append (suc n) v acc rest = octal_digits-append n (v / 8) (_ ∷ acc) rest

pub entry_before-octal_digits :
    (e : Entry) (rest : List ℕ)
    → entry_before e rest ≡ (name_field e ++ octal_digits 11 e.size e.after) ++ (e.blocks ++ rest)
unfolding entry_before
entry_before-octal_digits e rest =
    ap (λ l. name_field e ++ l) (octal_digits-append 11 e.size e.after (e.blocks ++ rest))
    ∙ sym (append_assoc (name_field e) (octal_digits 11 e.size e.after) (e.blocks ++ rest))

pub length-header :
    (e : Entry) → IsEntry e → length (name_field e ++ octal_digits 11 e.size e.after) ≡ 512
length-header e h =
    length-append (name_field e) (octal_digits 11 e.size e.after)
    ∙ ap (λ n. length (name_field e) + n) (length-octal_digits 11 e.size e.after)
    ∙ h.header

-- Behind the bytes before an entry the archive reads as the entry.
pub header_size-entry :
    (before : List ℕ) (e : Entry) (rest : List ℕ)
    → IsEntry e
    → header_size (before ++ entry_before e rest) (length before) ≡ some e.size
unfolding header_size entry_before
header_size-entry before e rest h =
    ap (λ l. octal_loop 11 l 0)
      (drop-length before (entry_before e rest) size_offset
        ∙ ap (λ n. drop n (entry_before e rest)) (sym h.field)
        ∙ drop-append (name_field e) _)
    ∙ octal_loop-octal_digits e.size (e.after ++ (e.blocks ++ rest)) h.small

pub strcmp-entry :
    (e : Entry) (rest name r : List ℕ)
    → IsEntry e
    → IsText name
    → (z : ℤ) × (strcmp (entry_before e rest) (name ++ 0 ∷ r) ≡ some z)
      × (is_zero z ≡ same_text e.name name)
unfolding entry_before
strcmp-entry e rest name r h t =
    let tail = e.between ++ octal_digits 11 e.size (e.after ++ (e.blocks ++ rest)) in
    let split : entry_before e rest ≡ e.name ++ 0 ∷ tail =
      append_assoc e.name (0 ∷ e.between)
        (octal_digits 11 e.size (e.after ++ (e.blocks ++ rest))) in
    let d = strcmp-Decides e.name name tail r h.text t in
    elim (Option-cases (strcmp (e.name ++ 0 ∷ tail) (name ++ 0 ∷ r))) [
      | inl n ↦ absurd (subst (λ o. Decides o e.name name) n d)
      | inr (z, ez) ↦ (
        z,
        ap (λ l. strcmp l (name ++ 0 ∷ r)) split ∙ ez,
        is_zero-same_text z e.name name (subst (λ o. Decides o e.name name) ez d),
      )
    ]

first_byte : (xs ys : List ℕ) → IsText xs → xs ≢ [] → (get_or (xs ++ ys) 0 0 == 0) ≡ false
first_byte [] ys t n = absurd (n refl)
first_byte (x ∷ xs) ys t n = ne→==_false x 0 t.0

pub first_byte-entry :
    (before : List ℕ) (e : Entry) (rest : List ℕ)
    → IsEntry e
    → (get_or (before ++ entry_before e rest) (length before) 0 == 0) ≡ false
unfolding entry_before
first_byte-entry before e rest h =
    ap (λ c. c == 0)
      (get_or-append before (entry_before e rest)
        ∙ ap (λ l. get_or l 0 0) (append_assoc e.name (0 ∷ e.between) _))
    ∙ first_byte e.name _ h.text h.named

pub length-entry_before :
    (e : Entry) (rest : List ℕ)
    → IsEntry e
    → length (entry_before e rest) ≡ 512 + length e.blocks + length rest
length-entry_before e rest h =
    ap length (entry_before-octal_digits e rest)
    ∙ length-append (name_field e ++ octal_digits 11 e.size e.after) (e.blocks ++ rest)
    ∙ ap (λ n. n + length (e.blocks ++ rest)) (length-header e h)
    ∙ ap (λ n. 512 + n) (length-append e.blocks rest)
    ∙ omega arith

pub entry_bytes-blocks : (e : Entry) → IsEntry e → entry_bytes e.size ≡ 512 + length e.blocks
entry_bytes-blocks e h =
    let small : e.size < 2 ^ 33 = omega (arith, h.small, octal_limit-11) in
    let sum : u64 (e.size + 511) ≡ e.size + 511 = omega arith in
    let fit : u64 ((1 + (e.size + 511) / 512) * 512) ≡ 512 + (e.size + 511) / 512 * 512 =
      omega arith in
    ap (λ n. u64 ((1 + n / 512) * 512)) sum ∙ fit ∙ ap (λ n. 512 + n) (sym h.filled)
