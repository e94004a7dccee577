-- ===== src/Frames/Release.antt =====
-- kernel/page.c: `free_page`, and `alloc_pages` behind it.
use riscv_os.Prelude.{ℕ, ◌+◌, ◌^◌, ◌<◌, ◌≡◌, refl, sym, subst, ◌≢◌, some, List, ◌∷◌, arith, length}
use riscv_os.Frames.{Memory, store, track_free, alloc_pages, free_page}
use riscv_os.Frames.Chain.{Chain, IsFrames, IsTaken, store_self, store_ne, Chain-frame}
use riscv_os.Frames.Alloc.{alloc_pages-pop}

-- `free_page` of a page that is handed out, with fewer than 2^64 - 2 pages free, makes it the first
-- free one and keeps the allocator's state; what else was handed out still is.
pub free_page-IsFrames :
    (ram_end pa : ℕ) (m : Memory) (l : List ℕ)
    → IsFrames ram_end m l
    → IsTaken m l pa
    → length l + 2 < 2 ^ 64
    → IsFrames ram_end (free_page pa m) (pa ∷ l)
      × ((q : ℕ) → IsTaken m l q → q ≢ pa → IsTaken (free_page pa m) (pa ∷ l) q)
unfolding free_page track_free
free_page-IsFrames ram_end pa m l f t short = (
  record {
    chain = (
      refl,
      t.nonnull,
      subst (λ a. Chain (store m.word pa m.free_list) a l) (sym (store_self m.word pa m.free_list))
          (Chain-frame m.word (store m.word pa m.free_list) m.free_list l pa
            (λ q eq ne. store_ne m.word pa m.free_list ne) m.next_paddr f.pages t.away f.chain),
    );
    counted = omega (arith, f.counted);
    short = omega arith;
    pages = (t.aligned, t.below, t.away, f.pages);
    next_aligned = f.next_aligned;
    next_pos = f.next_pos;
    next_in = f.next_in;
    end_in = f.end_in;
  },
  λ q tq ne. record {
    nonnull = tq.nonnull;
    aligned = tq.aligned;
    below = tq.below;
    away = (ne, tq.away);
  },
)

-- A page that was handed out and just freed, with fewer than 2^64 - 2 pages free, is the next one
-- that `alloc_pages` hands out, with the free list as it was before.
alloc_pages-free_page :
    (ram_end owner pa : ℕ) (m : Memory) (l : List ℕ)
    → IsFrames ram_end m l
    → IsTaken m l pa
    → length l + 2 < 2 ^ 64
    → (m' : Memory) × (alloc_pages ram_end owner 1 (free_page pa m) ≡ some (pa, m'))
      × IsFrames ram_end m' l
      × IsTaken m' l pa
alloc_pages-free_page ram_end owner pa m l f t short =
    let (m', e, h) =
      alloc_pages-pop ram_end owner (free_page pa m) pa l
        (free_page-IsFrames ram_end pa m l f t short).0 in
    (m', e, h.frames, h.taken)
