-- ===== src/Frames/Alloc.antt =====
-- kernel/page.c: `alloc_pages(1)` hands out a page that is free or fresh.
use riscv_os.Prelude.{
  u64, ℕ, suc, ◌+◌, ◌*◌, ◌^◌, ◌≤◌, ◌<◌, ◌≡◌, refl, ap, sym, ◌∙◌, ◌≢◌, none, some, List, [], ◌∷◌,
  ◌==◌, if◌then◌else◌, arith, ne→==_false, ltb, true, le→ltb_false, lt→ltb,
}
use riscv_os.Frames.{Memory, page_size, dec64, hand_out, bump, alloc_free_list, alloc_pages}
use riscv_os.Frames.Chain.{IsFrames, IsTaken}
use riscv_os.Frames.Handed.{capacity, Handed, HasPage, hand_out-Handed}

abbrev popped : Memory → ℕ → Memory
popped m q = record m { free_list = m.word q; g_free_pages = dec64 m.g_free_pages }

alloc_pages-popped :
    (ram_end owner : ℕ) (m : Memory)
    → m.free_list ≢ 0
    → alloc_pages ram_end owner 1 m
      ≡ some (m.free_list, hand_out m.free_list 1 owner (popped m m.free_list))
unfolding alloc_pages
alloc_pages-popped ram_end owner m ne =
    let e = ne→==_false m.free_list 0 ne in rw (e, alloc_free_list) (rw e)

popped-IsFrames :
    (ram_end : ℕ) (m : Memory) (q : ℕ) (l : List ℕ)
    → IsFrames ram_end m (q ∷ l)
    → IsFrames ram_end (popped m q) l
popped-IsFrames ram_end m q l f = record {
  chain = f.chain.2;
  counted = omega (arith, f.counted, f.short);
  short = omega (arith, f.short);
  pages = f.pages.3;
  next_aligned = f.next_aligned;
  next_pos = f.next_pos;
  next_in = f.next_in;
  end_in = f.end_in;
}

popped-IsTaken :
    (ram_end : ℕ) (m : Memory) (q : ℕ) (l : List ℕ)
    → IsFrames ram_end m (q ∷ l)
    → IsTaken (popped m q) l q
popped-IsTaken ram_end m q l f = record {
  nonnull = f.chain.1;
  aligned = f.pages.0;
  below = f.pages.1;
  away = f.pages.2;
}

popped-was_free :
    (m : Memory) (q : ℕ) (l : List ℕ) (p : ℕ)
    → IsTaken m (q ∷ l) p
    → IsTaken (popped m q) l p × (p ≢ q)
popped-was_free m q l p t = (
  record { nonnull = t.nonnull; aligned = t.aligned; below = t.below; away = t.away.1 },
  t.away.0,
)

capacity-popped :
    (ram_end : ℕ) (m : Memory) (q : ℕ) (l : List ℕ)
    → capacity ram_end m (q ∷ l) ≡ suc (capacity ram_end (popped m q) l)
unfolding capacity
capacity-popped ram_end m q l = omega arith

pub alloc_pages-pop :
    (ram_end owner : ℕ) (m : Memory) (q : ℕ) (l : List ℕ)
    → IsFrames ram_end m (q ∷ l)
    → (m' : Memory) × (alloc_pages ram_end owner 1 m ≡ some (q, m'))
      × Handed ram_end m (q ∷ l) q m' l
alloc_pages-pop ram_end owner m q l f = (
  hand_out q 1 owner (popped m q),
  alloc_pages-popped ram_end owner m (λ z. f.chain.1 (sym f.chain.0 ∙ z))
      ∙ ap (λ p. some (p, hand_out p 1 owner (popped m p))) f.chain.0,
  hand_out-Handed ram_end q owner m (popped m q) (q ∷ l) l (popped-IsFrames ram_end m q l f)
      (popped-IsTaken ram_end m q l f) refl (popped-was_free m q l) (capacity-popped ram_end m q l),
)

abbrev bumped : Memory → Memory
bumped m = record m { next_paddr = m.next_paddr + page_size }

alloc_free_list-nil : (m : Memory) → m.free_list ≡ 0 → alloc_free_list m ≡ (0, m)
unfolding alloc_free_list
alloc_free_list-nil m e =
    let test : (m.free_list == 0) ≡ true = ground arith in rw (test, alloc_free_list)

alloc_pages-bump :
    (ram_end owner : ℕ) (m : Memory)
    → m.free_list ≡ 0
    → alloc_pages ram_end owner 1 m ≡ bump ram_end owner 1 m
unfolding alloc_pages
alloc_pages-bump ram_end owner m e = rw (alloc_free_list-nil m e)

bump-bumped :
    (ram_end owner : ℕ) (m : Memory)
    → m.next_paddr + page_size < 2 ^ 64
    → bump ram_end owner 1 m ≡ (
        if ltb ram_end (m.next_paddr + page_size)
        then none
        else some (m.next_paddr, hand_out m.next_paddr 1 owner (bumped m)))
unfolding bump
bump-bumped ram_end owner m small =
    let eu : u64 (m.next_paddr + 1 * page_size) ≡ m.next_paddr + page_size = omega arith in rw eu

bumped-IsFrames :
    (ram_end : ℕ) (m : Memory)
    → IsFrames ram_end m []
    → m.next_paddr + page_size ≤ ram_end
    → IsFrames ram_end (bumped m) []
bumped-IsFrames ram_end m f room = record {
  chain = f.chain;
  counted = f.counted;
  short = f.short;
  pages = tt;
  next_aligned = omega (arith, f.next_aligned);
  next_pos = omega arith;
  next_in = room;
  end_in = f.end_in;
}

capacity-bumped :
    (ram_end : ℕ) (m : Memory)
    → m.next_paddr + page_size ≤ ram_end
    → capacity ram_end m [] ≡ suc (capacity ram_end (bumped m) [])
unfolding capacity
capacity-bumped ram_end m room = omega arith

pub HasPage-capacity :
    (ram_end : ℕ) (m : Memory) (l : List ℕ) → 0 < capacity ram_end m l → HasPage ram_end m l
unfolding capacity
HasPage-capacity ram_end m [] h = omega arith
HasPage-capacity ram_end m (q ∷ l) h = tt

alloc_pages-fresh :
    (ram_end owner : ℕ) (m : Memory)
    → IsFrames ram_end m []
    → m.next_paddr + page_size ≤ ram_end
    → (m' : Memory) × (alloc_pages ram_end owner 1 m ≡ some (m.next_paddr, m'))
      × Handed ram_end m [] m.next_paddr m' []
alloc_pages-fresh ram_end owner m f room =
    let test = le→ltb_false ram_end (m.next_paddr + page_size) room in
    (
      hand_out m.next_paddr 1 owner (bumped m),
      alloc_pages-bump ram_end owner m f.chain
          ∙ bump-bumped ram_end owner m (omega (arith, f.end_in))
          ∙ rw test,
      hand_out-Handed ram_end m.next_paddr owner m (bumped m) [] []
          (bumped-IsFrames ram_end m f room)
          (record {
            nonnull = omega (arith, f.next_pos);
            aligned = f.next_aligned;
            below = omega arith;
            away = tt;
          })
          refl
          (λ q t. (
            record {
              nonnull = t.nonnull;
              aligned = t.aligned;
              below = omega (arith, t.below);
              away = tt;
            },
            omega (arith, t.below),
          ))
          (capacity-bumped ram_end m room),
    )

-- `alloc_pages(1)` succeeds whenever a page is free or the fresh ones reach as far, and then does
-- what `Handed` says: the page it returns is whole, not null, cleared, and neither free nor handed
-- out before; no word outside it changes; the allocator's state is kept.
pub alloc_pages-Handed :
    (ram_end owner : ℕ) (m : Memory) (l : List ℕ)
    → IsFrames ram_end m l
    → HasPage ram_end m l
    → (p : ℕ) × (m' : Memory) × (l' : List ℕ) × (alloc_pages ram_end owner 1 m ≡ some (p, m'))
      × Handed ram_end m l p m' l'
alloc_pages-Handed ram_end owner m [] f room =
    let (m', e, h) = alloc_pages-fresh ram_end owner m f room in (m.next_paddr, m', [], e, h)
alloc_pages-Handed ram_end owner m (q ∷ l) f room =
    let (m', e, h) = alloc_pages-pop ram_end owner m q l f in (q, m', l, e, h)

-- With nothing free and no fresh page left `alloc_pages(1)` halts.
pub alloc_pages-none :
    (ram_end owner : ℕ) (m : Memory)
    → IsFrames ram_end m []
    → ram_end < m.next_paddr + page_size
    → alloc_pages ram_end owner 1 m ≡ none
alloc_pages-none ram_end owner m f full =
    let test = lt→ltb ram_end (m.next_paddr + page_size) full in
    alloc_pages-bump ram_end owner m f.chain
    ∙ bump-bumped ram_end owner m (omega (arith, f.end_in, f.next_in))
    ∙ rw test
