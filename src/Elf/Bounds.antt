-- ===== src/Elf/Bounds.antt =====
-- kernel/elf-loader.c: the bounds of the image hold every segment that is loaded.
use riscv_os.Prelude.{
  u64, ℕ, ◌+◌, ◌-◌, ◌^◌, ◌≤◌, ◌≡◌, true, List, [], ◌∷◌, ltb, ◌==◌, if◌then◌else◌, arith, length,
  Bool-cases, inl, inr,
}
use riscv_os.Elf.{Phdr, bounds}

-- A segment that lies in the file and in the addresses below the last page, and whose memory has
-- room for its bytes of the file
pub record IsSegment (elf : List ℕ) (p : Phdr) : Type 0 where
  pub in_file : p.p_offset + p.p_filesz ≤ length elf
  pub room : p.p_filesz ≤ p.p_memsz
  pub below : p.p_vaddr + p.p_memsz ≤ 2 ^ 64 - 4096

-- Every header with PT_LOAD describes such a segment.
abbrev pub AreSegments : List ℕ → List Phdr → Type 0
AreSegments elf [] = Unit {0}
AreSegments elf (p ∷ ps) = ((p.p_type == 1) ≡ true → IsSegment elf p) × AreSegments elf ps

-- Every segment that is loaded lies between two addresses.
abbrev pub Within : ℕ → ℕ → List Phdr → Type 0
Within low high [] = Unit {0}
Within low high (p ∷ ps) =
    ((p.p_type == 1) ≡ true → (low ≤ p.p_vaddr) × (p.p_vaddr + p.p_memsz ≤ high))
    × Within low high ps

pub record Bounded (ps : List Phdr) (b r : ℕ × ℕ) : Type 0 where
  pub lower : r.0 ≤ b.0
  pub higher : b.1 ≤ r.1
  pub last : r.1 ≤ 2 ^ 64 - 4096
  pub within : Within r.0 r.1 ps

abbrev min_if : ℕ → ℕ → ℕ
min_if a low = if ltb a low then a else low

abbrev max_if : ℕ → ℕ → ℕ
max_if end high = if ltb high end then end else high

min_if-le : (a low : ℕ) → (min_if a low ≤ a) × (min_if a low ≤ low)
min_if-le a low = ground arith

max_if-le :
    (end high n : ℕ)
    → end ≤ n
    → high ≤ n
    → (end ≤ max_if end high) × (high ≤ max_if end high) × (max_if end high ≤ n)
max_if-le end high n h k = ground arith

pub bounds-Bounded :
    (elf : List ℕ) (ps : List Phdr) (low high : ℕ)
    → AreSegments elf ps
    → high ≤ 2 ^ 64 - 4096
    → Bounded ps (low, high) (bounds ps (low, high))
unfolding bounds
bounds-Bounded elf [] low high s h = record {
  lower = omega arith;
  higher = omega arith;
  last = h;
  within = _;
}
bounds-Bounded elf (p ∷ ps) low high (s, ss) h = elim (Bool-cases (p.p_type == 1)) [
  | inl e ↦ rw e (
      let seg = s e in
      let end : u64 (p.p_vaddr + p.p_memsz) ≡ p.p_vaddr + p.p_memsz = omega (arith, seg.below) in
      let (la, ll) = min_if-le p.p_vaddr low in
      let (he, hh, hn) = max_if-le (p.p_vaddr + p.p_memsz) high (2 ^ 64 - 4096) seg.below h in
      rw end (
        let b =
          bounds-Bounded elf ps (min_if p.p_vaddr low) (max_if (p.p_vaddr + p.p_memsz) high) ss
            hn in
        record {
          lower = omega (arith, b.lower, ll);
          higher = omega (arith, b.higher, hh);
          last = b.last;
          within = (λ t. (omega (arith, b.lower, la), omega (arith, b.higher, he)), b.within);
        }))
  | inr e ↦ rw e (
      let b = bounds-Bounded elf ps low high ss h in
      record {
        lower = b.lower;
        higher = b.higher;
        last = b.last;
        within = (λ t. absurd (ground (arith, t, e)), b.within);
      })
]
