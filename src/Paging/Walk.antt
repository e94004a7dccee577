-- ===== src/Paging/Walk.antt =====
-- kernel/page.c: one level of a page table walk, as `map_page` makes it.
use riscv_os.Paging.Level.{store_word-IsFrames, Level, Leads}
use riscv_os.Prelude.{
  ℕ, ◌+◌, ◌%◌, ◌^◌, ◌≤◌, ◌<◌, ◌≡◌, refl, sym, ap, ◌∙◌, ◌≢◌, ◌⊎◌, inl, inr, true, false, arith, some,
  List, Bool-cases,
}
use riscv_os.Frames.{Memory, page_size, clear, alloc_pages}
use riscv_os.Frames.Chain.{
  IsFrames, IsTaken, store_self, store_ne, clear_inside, clear_outside, pages_apart, Chain-frame,
}
use riscv_os.Frames.Handed.{Handed, capacity}
use riscv_os.Frames.Alloc.{HasPage-capacity, alloc_pages-Handed}
use riscv_os.Paging.{valid, pte_to_pa, pa_to_pte, slot, store_word, next_table}
use riscv_os.Paging.Entry.{table_entry, slots_apart}

next_table-old :
    (ram_end owner pt i : ℕ) (m : Memory) (l : List ℕ)
    → IsFrames ram_end m l
    → Leads m l pt i
    → valid (m.word (slot pt i)) ≡ true
    → (next_table ram_end owner pt i m ≡ some (pte_to_pa (m.word (slot pt i)), m))
      × Level ram_end m l pt i (pte_to_pa (m.word (slot pt i))) m l
unfolding next_table
next_table-old ram_end owner pt i m l f leads v = (
  rw v,
  record {
    frames = f;
    taken = (leads v).0;
    apart = (leads v).1;
    entry_valid = v;
    entry_leads = refl;
    kept = λ q t. t;
    same = λ q a w ne. refl;
    spent = omega arith;
    old = inl (refl, refl, v);
  },
)

-- The memory behind a table that was made.
abbrev pub made : ℕ → ℕ → ℕ → Memory → Memory
made pt i page m =
    store_word (slot pt i) (pa_to_pte page + 1) (record m { word = clear m.word page page_size })

made_leads :
    (pt i page : ℕ) (m : Memory)
    → page % page_size ≡ 0
    → page < 2 ^ 64
    → (valid ((made pt i page m).word (slot pt i)) ≡ true)
      × (pte_to_pa ((made pt i page m).word (slot pt i)) ≡ page)
made_leads pt i page m e small =
    rw (store_self (clear m.word page page_size) (slot pt i) (pa_to_pte page + 1))
      (table_entry page e small)

next_table-made :
    (ram_end owner pt i page : ℕ) (m m' : Memory)
    → alloc_pages ram_end owner 1 m ≡ some (page, m')
    → page % page_size ≡ 0
    → page < 2 ^ 64
    → valid (m.word (slot pt i)) ≡ false
    → next_table ram_end owner pt i m ≡ some (page, made pt i page m')
unfolding next_table
next_table-made ram_end owner pt i page m m' e ea small v =
    rw (v, e, next_table)
      (ap (λ p. some (p, made pt i page m')) (made_leads pt i page m' ea small).1)

clear-IsFrames :
    (ram_end page : ℕ) (m : Memory) (l : List ℕ)
    → IsFrames ram_end m l
    → IsTaken m l page
    → IsFrames ram_end (record m { word = clear m.word page page_size }) l
clear-IsFrames ram_end page m l f t = record {
  chain =
      Chain-frame m.word (clear m.word page page_size) m.free_list l page
        (λ q eq ne. clear_outside m.word page page_size q (pages_apart q page eq t.aligned ne))
        m.next_paddr f.pages t.away f.chain;
  counted = f.counted;
  short = f.short;
  pages = f.pages;
  next_aligned = f.next_aligned;
  next_pos = f.next_pos;
  next_in = f.next_in;
  end_in = f.end_in;
}

-- A handed out page in a memory with the same free pages.
IsTaken-word :
    (m : Memory) (w : ℕ → ℕ) (l : List ℕ) (q : ℕ)
    → IsTaken m l q
    → IsTaken (record m { word = w }) l q
IsTaken-word m w l q t = record {
  nonnull = t.nonnull;
  aligned = t.aligned;
  below = t.below;
  away = t.away;
}

word_outside :
    (q page a : ℕ)
    → q % page_size ≡ 0
    → page % page_size ≡ 0
    → q ≤ a
    → a < q + page_size
    → q ≢ page
    → (a < page) ⊎ (page + page_size ≤ a)
word_outside q page a eq ep lo hi ne = omega arith

made-Level :
    (ram_end pt i page : ℕ) (m m' : Memory) (l l' : List ℕ)
    → IsTaken m l pt
    → i < 512
    → Handed ram_end m l page m' l'
    → Level ram_end m l pt i page (made pt i page m') l'
unfolding capacity
made-Level ram_end pt i page m m' l l' t hi h =
    let cleared : Memory = record m' { word = clear m'.word page page_size } in
    let pt_kept = h.was_free pt t in
    let leads =
      made_leads pt i page m' h.taken.aligned
        (omega (arith, h.taken.below, h.frames.next_in, h.frames.end_in)) in
    record {
      frames =
          store_word-IsFrames ram_end pt i (pa_to_pte page + 1) cleared l'
            (clear-IsFrames ram_end page m' l' h.frames h.taken) (IsTaken-word m' _ l' pt pt_kept.0)
            hi;
      taken = IsTaken-word m' _ l' page h.taken;
      apart = λ e. pt_kept.1 (sym e);
      entry_valid = leads.0;
      entry_leads = leads.1;
      kept = λ q tq. IsTaken-word m' _ l' q (h.was_free q tq).0;
      same = λ q a w ne.
          let out =
            word_outside q page a (w.page).aligned h.taken.aligned w.low w.high
              (h.was_free q w.page).1 in
          store_ne (clear m'.word page page_size) (slot pt i) (pa_to_pte page + 1) ne
          ∙ clear_outside m'.word page page_size a out
          ∙ h.others a out;
      spent = omega (arith, h.spent);
      old = inr (
        λ q tq. (h.was_free q tq).1,
        λ j hj.
            store_ne (clear m'.word page page_size) (slot pt i) (pa_to_pte page + 1)
              (slots_apart page pt j i h.taken.aligned t.aligned hj hi (λ e. pt_kept.1 (sym e)))
            ∙ clear_inside m'.word page page_size (slot page j) (omega arith) (omega arith),
      );
    }

-- One level of `map_page` at a table that is handed out, whose entry leads to another such table
-- if it is valid, with a page left to hand out: it succeeds and does what `Level` says.
pub next_table-Level :
    (ram_end owner pt i : ℕ) (m : Memory) (l : List ℕ)
    → IsFrames ram_end m l
    → IsTaken m l pt
    → i < 512
    → Leads m l pt i
    → 0 < capacity ram_end m l
    → (t : ℕ) × (m' : Memory) × (l' : List ℕ) × (next_table ram_end owner pt i m ≡ some (t, m'))
      × Level ram_end m l pt i t m' l'
next_table-Level ram_end owner pt i m l f t hi leads room =
    elim (Bool-cases (valid (m.word (slot pt i)))) [
      | inl v ↦
          let (e, lv) = next_table-old ram_end owner pt i m l f leads v in
          (pte_to_pa (m.word (slot pt i)), m, l, e, lv)
      | inr v ↦
          let (page, m', l', e, h) =
            alloc_pages-Handed ram_end owner m l f (HasPage-capacity ram_end m l room) in
          (
            page,
            made pt i page m',
            l',
            next_table-made ram_end owner pt i page m m' e h.taken.aligned
                (omega (arith, h.taken.below, h.frames.next_in, h.frames.end_in)) v,
            made-Level ram_end pt i page m m' l l' t hi h,
          )
    ]
