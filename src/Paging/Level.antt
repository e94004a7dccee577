-- ===== src/Paging/Level.antt =====
-- kernel/page.c: one level of a walk, and the words of pages that are handed out.
use riscv_os.Prelude.{ℕ, ◌+◌, ◌%◌, ◌≤◌, ◌<◌, ◌≡◌, ◌≢◌, ◌⊎◌, true, arith, List}
use riscv_os.Frames.{Memory, page_size, store}
use riscv_os.Frames.Chain.{IsFrames, IsTaken, store_ne, Chain-frame}
use riscv_os.Frames.Handed.{capacity}
use riscv_os.Paging.{valid, pte_to_pa, slot, store_word}

-- A word of a page that is handed out.
pub record IsWordOf (m : Memory) (l : List ℕ) (p a : ℕ) : Type 0 where
  pub page : IsTaken m l p
  pub low : p ≤ a
  pub high : a < p + page_size

-- A store into a page that is handed out keeps the allocator's state.
pub store_word-IsFrames :
    (ram_end p i v : ℕ) (m : Memory) (l : List ℕ)
    → IsFrames ram_end m l
    → IsTaken m l p
    → i < 512
    → IsFrames ram_end (store_word (slot p i) v m) l
store_word-IsFrames ram_end p i v m l f t hi = record {
  chain =
      Chain-frame m.word (store m.word (slot p i) v) m.free_list l p
        (λ q eq ne. store_ne m.word (slot p i) v (inside_ne p q i t.aligned eq hi ne)) m.next_paddr
        f.pages t.away f.chain;
  counted = f.counted;
  short = f.short;
  pages = f.pages;
  next_aligned = f.next_aligned;
  next_pos = f.next_pos;
  next_in = f.next_in;
  end_in = f.end_in;
}
  where
    inside_ne :
        (p' q i' : ℕ) → p' % page_size ≡ 0 → q % page_size ≡ 0 → i' < 512 → q ≢ p' → q ≢ slot p' i'
    inside_ne p' q i' ep eq h ne = omega arith

-- What one level of `map_page` leaves behind: a table `t` that the entry at `i` leads to.
pub record Level (ram_end : ℕ) (m : Memory) (l : List ℕ) (pt i t : ℕ) (m' : Memory) (l' : List ℕ)
    : Type 0 where
  pub frames : IsFrames ram_end m' l'
  pub taken : IsTaken m' l' t
  pub apart : t ≢ pt
  pub entry_valid : valid (m'.word (slot pt i)) ≡ true
  pub entry_leads : pte_to_pa (m'.word (slot pt i)) ≡ t
  pub kept : (q : ℕ) → IsTaken m l q → IsTaken m' l' q
  pub same : (q a : ℕ) → IsWordOf m l q a → a ≢ slot pt i → m'.word a ≡ m.word a
  pub spent : capacity ram_end m l ≤ capacity ram_end m' l' + 1
  pub old :
      ((m' ≡ m) × (l' ≡ l) × (valid (m.word (slot pt i)) ≡ true))
      ⊎ (((q : ℕ) → IsTaken m l q → q ≢ t) × ((j : ℕ) → j < 512 → m'.word (slot t j) ≡ 0))

-- The table that an entry leads to, if it is valid.
abbrev pub Leads : Memory → List ℕ → ℕ → ℕ → Type 0
Leads m l pt i =
    valid (m.word (slot pt i)) ≡ true
    → IsTaken m l (pte_to_pa (m.word (slot pt i))) × (pte_to_pa (m.word (slot pt i)) ≢ pt)
