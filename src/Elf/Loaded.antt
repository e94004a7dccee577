-- ===== src/Elf/Loaded.antt =====
-- kernel/elf-loader.c: the image holds the bytes of every segment, at its address.
use riscv_os.Prelude.{
  u64, ℕ, ◌+◌, ◌-◌, ◌*◌, ◌/◌, ◌^◌, ◌≤◌, ◌<◌, ◌≡◌, ◌⊎◌, refl, ap, sym, subst, ◌∙◌, Bool, true, false,
  ◌&&◌, some, List, [], ◌∷◌, leb, ltb, ◌==◌, if◌then◌else◌, arith, length, get_or, Bool-cases, inl,
  inr,
}
use riscv_os.Elf.{Phdr, bounds, image_bounds, copy_segment, copy_segments}
use riscv_os.Elf.Bounds.{IsSegment, AreSegments, Within, bounds-Bounded}

abbrev pub is_load : Phdr → Bool
is_load p = p.p_type == 1

-- A segment that is loaded fits into an image of some size.
record FitsOne (elf : List ℕ) (start size : ℕ) (p : Phdr) : Type 0 where
  after : start ≤ p.p_vaddr
  dest : u64 (p.p_vaddr + (2 ^ 64 - start)) ≡ p.p_vaddr - start
  ends : p.p_vaddr - start + p.p_filesz ≤ size
  in_file : p.p_offset + p.p_filesz ≤ length elf

abbrev FitsAll : List ℕ → ℕ → ℕ → List Phdr → Type 0
FitsAll elf start size [] = Unit {0}
FitsAll elf start size (p ∷ ps) =
    (is_load p ≡ true → FitsOne elf start size p) × FitsAll elf start size ps

-- A place of the image at which no segment is loaded
abbrev pub Untouched : ℕ → ℕ → List Phdr → Type 0
Untouched start o [] = Unit {0}
Untouched start o (p ∷ ps) =
    (is_load p ≡ true → (o < p.p_vaddr - start) ⊎ (p.p_vaddr - start + p.p_filesz ≤ o))
    × Untouched start o ps

-- The bytes that a segment brings do not overlap those of others behind it.
abbrev pub ApartFrom : Phdr → List Phdr → Type 0
ApartFrom p [] = Unit {0}
ApartFrom p (q ∷ ps) =
    (is_load q ≡ true → (p.p_vaddr + p.p_filesz ≤ q.p_vaddr) ⊎ (q.p_vaddr + q.p_filesz ≤ p.p_vaddr))
    × ApartFrom p ps

abbrev pub AreApart : List Phdr → Type 0
AreApart [] = Unit {0}
AreApart (p ∷ ps) = (is_load p ≡ true → ApartFrom p ps) × AreApart ps

-- Every byte of the file that belongs to a segment stands in the image.
abbrev pub Loaded : List ℕ → ℕ → (ℕ → ℕ) → List Phdr → Type 0
Loaded elf start image [] = Unit {0}
Loaded elf start image (p ∷ ps) =
    (is_load p ≡ true
      → (i : ℕ) → i < p.p_filesz
      → image (p.p_vaddr - start + i) ≡ get_or elf (p.p_offset + i) 0)
    × Loaded elf start image ps

ApartFrom-Untouched :
    (elf : List ℕ) (start size i : ℕ) (p : Phdr) (ps : List Phdr)
    → start ≤ p.p_vaddr
    → i < p.p_filesz
    → FitsAll elf start size ps
    → ApartFrom p ps
    → Untouched start (p.p_vaddr - start + i) ps
ApartFrom-Untouched elf start size i p [] le lt f a = _
ApartFrom-Untouched elf start size i p (q ∷ ps) le lt (f, fs) (a, aps) = (
  λ t. elim (a t) [
    | inl h ↦ inl (omega (arith, le, lt, h, (f t).after))
    | inr h ↦ inr (omega (arith, le, lt, h, (f t).after))
  ],
  ApartFrom-Untouched elf start size i p ps le lt fs aps,
)

-- The image with a segment
abbrev with_segment : List ℕ → ℕ → Phdr → (ℕ → ℕ) → ℕ → ℕ
with_segment elf start p image o =
    if leb (p.p_vaddr - start) o && ltb o (p.p_vaddr - start + p.p_filesz)
    then get_or elf (p.p_offset + (o - (p.p_vaddr - start))) 0
    else image o

copy_segment-some :
    (elf : List ℕ) (start size : ℕ) (p : Phdr) (image : ℕ → ℕ)
    → FitsOne elf start size p
    → copy_segment elf start size p image ≡ some (with_segment elf start p image)
unfolding copy_segment
copy_segment-some elf start size p image f =
    let test : (leb (p.p_vaddr - start + p.p_filesz) size
          && leb (p.p_offset + p.p_filesz) (length elf))
        ≡ true =
      both _ _ _ _ f.ends f.in_file in
    rw (f.dest, test) refl
  where
    both : (a b c d : ℕ) → a ≤ b → c ≤ d → (leb a b && leb c d) ≡ true
    both a b c d h k = ground arith

with_segment_in :
    (elf : List ℕ) (start : ℕ) (p : Phdr) (image : ℕ → ℕ) (i : ℕ)
    → i < p.p_filesz
    → with_segment elf start p image (p.p_vaddr - start + i) ≡ get_or elf (p.p_offset + i) 0
with_segment_in elf start p image i lt =
    let d = p.p_vaddr - start in
    let test : (leb d (d + i) && ltb (d + i) (d + p.p_filesz)) ≡ true = inside d i p.p_filesz lt in
    let e : p.p_offset + (d + i - d) ≡ p.p_offset + i = omega arith in
    rw test (ap (λ n. get_or elf n 0) e)
  where
    inside : (d i n : ℕ) → i < n → (leb d (d + i) && ltb (d + i) (d + n)) ≡ true
    inside d i n lt = ground arith

with_segment_out :
    (elf : List ℕ) (start : ℕ) (p : Phdr) (image : ℕ → ℕ) (o : ℕ)
    → (o < p.p_vaddr - start) ⊎ (p.p_vaddr - start + p.p_filesz ≤ o)
    → with_segment elf start p image o ≡ image o
with_segment_out elf start p image o h =
    let test = outside (p.p_vaddr - start) o p.p_filesz h in rw test refl
  where
    outside : (d o n : ℕ) → (o < d) ⊎ (d + n ≤ o) → (leb d o && ltb o (d + n)) ≡ false
    outside d o n (inl h) = ground arith
    outside d o n (inr h) = ground arith

copy_segments-FitsAll :
    (elf : List ℕ) (start size : ℕ) (ps : List Phdr) (image : ℕ → ℕ)
    → FitsAll elf start size ps
    → AreApart ps
    → (image' : ℕ → ℕ) × (copy_segments elf start size ps image ≡ some image')
      × Loaded elf start image' ps
      × ((o : ℕ) → Untouched start o ps → image' o ≡ image o)
unfolding copy_segments
copy_segments-FitsAll elf start size [] image f a = (image, refl, _, λ o u. refl)
copy_segments-FitsAll elf start size (p ∷ ps) image (f, fs) (a, aps) =
    elim (Bool-cases (p.p_type == 1)) [
      | inl t ↦
          let (image', e, l, k) =
            copy_segments-FitsAll elf start size ps (with_segment elf start p image) fs aps in
          rw (t, copy_segment-some elf start size p image (f t))
            (
              image',
              e,
              (
                λ _ i lt.
                    k (p.p_vaddr - start + i)
                      (ApartFrom-Untouched elf start size i p ps (f t).after lt fs (a t))
                    ∙ with_segment_in elf start p image i lt,
                l,
              ),
              λ o u. k o u.1 ∙ with_segment_out elf start p image o (u.0 refl),
            )
      | inr t ↦
          let (image', e, l, k) = copy_segments-FitsAll elf start size ps image fs aps in
          rw t (image', e, (λ h. absurd (ground (arith, h)), l), λ o u. k o u.1)
    ]

FitsOne-image_bounds :
    (elf : List ℕ) (p : Phdr) (low high : ℕ)
    → IsSegment elf p
    → low ≤ p.p_vaddr
    → p.p_vaddr + p.p_memsz ≤ high
    → high ≤ 2 ^ 64 - 4096
    → FitsOne elf (image_bounds (low, high)).0 (image_bounds (low, high)).1 p
FitsOne-image_bounds elf p low high s hl hh top =
    let start = low / 4096 * 4096 in
    let up : u64 (high + 4095) ≡ high + 4095 = omega (arith, top) in
    let size : u64 ((high + 4095) / 4096 * 4096 + (2 ^ 64 - start))
        ≡ (high + 4095) / 4096 * 4096 - start =
      omega (arith, top, hl, hh) in
    let le : p.p_vaddr - start + p.p_filesz ≤ (high + 4095) / 4096 * 4096 - start =
      omega (arith, top, hl, hh, s.room) in
    record {
      after = omega (arith, hl);
      dest = omega (arith, hl, s.below);
      ends =
          subst (λ n. p.p_vaddr - start + p.p_filesz ≤ n)
            (sym (ap (λ n. u64 (n / 4096 * 4096 + (2 ^ 64 - start))) up ∙ size)) le;
      in_file = s.in_file;
    }

FitsAll-image_bounds :
    (elf : List ℕ) (ps : List Phdr) (low high : ℕ)
    → AreSegments elf ps
    → Within low high ps
    → high ≤ 2 ^ 64 - 4096
    → FitsAll elf (image_bounds (low, high)).0 (image_bounds (low, high)).1 ps
FitsAll-image_bounds elf [] low high s w top = _
FitsAll-image_bounds elf (p ∷ ps) low high (s, ss) (w, ws) top = (
  λ t. FitsOne-image_bounds elf p low high (s t) (w t).0 (w t).1 top,
  FitsAll-image_bounds elf ps low high ss ws top,
)

-- The bounds of the image
abbrev pub whole_image : List Phdr → ℕ × ℕ
whole_image ps = image_bounds (bounds ps (2 ^ 64 - 1, 0))

-- For program headers whose segments to load lie in the file and below the last page of the
-- addresses, and bring bytes to places that do not overlap: the image between the bounds that the
-- loader computes has room for all of them, so the copy ends; afterwards every byte of the file
-- that belongs to a segment stands in the image at the distance of its address from the lower
-- bound, and every other byte of the image is 0.
pub copy_segments-Loaded :
    (elf : List ℕ) (ps : List Phdr)
    → AreSegments elf ps
    → AreApart ps
    → (image : ℕ → ℕ) × (copy_segments elf (whole_image ps).0 (whole_image ps).1 ps (λ _. 0)
        ≡ some image)
      × Loaded elf (whole_image ps).0 image ps
      × ((o : ℕ) → Untouched (whole_image ps).0 o ps → image o ≡ 0)
copy_segments-Loaded elf ps s a =
    let b = bounds-Bounded elf ps (2 ^ 64 - 1) 0 s (omega arith) in
    copy_segments-FitsAll elf (whole_image ps).0 (whole_image ps).1 ps (λ _. 0)
      (FitsAll-image_bounds elf ps (bounds ps (2 ^ 64 - 1, 0)).0 (bounds ps (2 ^ 64 - 1, 0)).1 s
        b.within b.last)
      a
