-- ===== src/Frames/Handed.antt =====
-- kernel/page.c: what it means that `alloc_pages(1)` hands out a page.
use riscv_os.Prelude.{
  ℕ, suc, ◌+◌, ◌-◌, ◌*◌, ◌/◌, ◌≤◌, ◌<◌, ◌≡◌, refl, ap, ◌∙◌, ◌≢◌, ◌⊎◌, List, [], ◌∷◌, length,
}
use riscv_os.Frames.{Memory, page_size, clear, track_alloc, hand_out}
use riscv_os.Frames.Chain.{IsFrames, IsTaken, clear_inside, clear_outside, pages_apart, Chain-frame}

-- How many pages can still be handed out one by one.
unfoldable pub capacity : ℕ → Memory → List ℕ → ℕ
capacity ram_end m l = length l + (ram_end - m.next_paddr) / page_size

-- What a successful `alloc_pages(1)` does: the page was free or fresh, it is taken now and all its
-- words are 0, no other word changed, and what was taken before still is.
pub record Handed (ram_end : ℕ) (m : Memory) (l : List ℕ) (p : ℕ) (m' : Memory) (l' : List ℕ)
    : Type 0 where
  pub frames : IsFrames ram_end m' l'
  pub taken : IsTaken m' l' p
  pub zeroed : (a : ℕ) → p ≤ a → a < p + page_size → m'.word a ≡ 0
  pub others : (a : ℕ) → (a < p) ⊎ (p + page_size ≤ a) → m'.word a ≡ m.word a
  pub spent : capacity ram_end m l ≡ suc (capacity ram_end m' l')
  pub was_free : (q : ℕ) → IsTaken m l q → IsTaken m' l' q × (q ≢ p)

-- The test that decides whether there is a page.
abbrev pub HasPage : ℕ → Memory → List ℕ → Type 0
HasPage ram_end m [] = m.next_paddr + page_size ≤ ram_end
HasPage ram_end m (q ∷ l) = Unit {0}

hand_out-word :
    (pa n owner : ℕ) (m : Memory) → (hand_out pa n owner m).word ≡ clear m.word pa (n * page_size)
unfolding hand_out track_alloc
hand_out-word pa n owner m = refl

-- Tracking and clearing touch no variable of the allocator.
hand_out-vars :
    (pa n owner : ℕ) (m : Memory)
    → ((hand_out pa n owner m).free_list ≡ m.free_list)
      × ((hand_out pa n owner m).next_paddr ≡ m.next_paddr)
      × ((hand_out pa n owner m).g_free_pages ≡ m.g_free_pages)
unfolding hand_out track_alloc
hand_out-vars pa n owner m = (refl, refl, refl)

IsTaken-hand_out :
    (pa owner p : ℕ) (m : Memory) (l : List ℕ) → IsTaken m l p → IsTaken (hand_out pa 1 owner m) l p
unfolding hand_out track_alloc
IsTaken-hand_out pa owner p m l t = record {
  nonnull = t.nonnull;
  aligned = t.aligned;
  below = t.below;
  away = t.away;
}

-- Clearing a page that is not free keeps the allocator's state.
hand_out-IsFrames :
    (ram_end pa owner : ℕ) (m : Memory) (l : List ℕ)
    → IsFrames ram_end m l
    → IsTaken m l pa
    → IsFrames ram_end (hand_out pa 1 owner m) l
unfolding hand_out track_alloc
hand_out-IsFrames ram_end pa owner m l f t = record {
  chain =
      Chain-frame m.word (clear m.word pa page_size) m.free_list l pa
        (λ q eq ne. clear_outside m.word pa page_size q (pages_apart q pa eq t.aligned ne))
        m.next_paddr f.pages t.away f.chain;
  counted = f.counted;
  short = f.short;
  pages = f.pages;
  next_aligned = f.next_aligned;
  next_pos = f.next_pos;
  next_in = f.next_in;
  end_in = f.end_in;
}

pub hand_out-Handed :
    (ram_end pa owner : ℕ) (m m1 : Memory) (l l' : List ℕ)
    → IsFrames ram_end m1 l'
    → IsTaken m1 l' pa
    → m1.word ≡ m.word
    → ((q : ℕ) → IsTaken m l q → IsTaken m1 l' q × (q ≢ pa))
    → capacity ram_end m l ≡ suc (capacity ram_end m1 l')
    → Handed ram_end m l pa (hand_out pa 1 owner m1) l'
unfolding capacity
hand_out-Handed ram_end pa owner m m1 l l' f t ew keep spent = record {
  spent = rw (hand_out-vars pa 1 owner m1).1 spent;
  frames = hand_out-IsFrames ram_end pa owner m1 l' f t;
  taken = IsTaken-hand_out pa owner pa m1 l' t;
  zeroed = λ a lo hi.
      ap (λ w. w a) (hand_out-word pa 1 owner m1) ∙ clear_inside m1.word pa page_size a lo hi;
  others = λ a out.
      ap (λ w. w a) (hand_out-word pa 1 owner m1)
      ∙ clear_outside m1.word pa page_size a out
      ∙ ap (λ w. w a) ew;
  was_free = λ q tq. let (tq', ne) = keep q tq in (IsTaken-hand_out pa owner q m1 l' tq', ne);
}
