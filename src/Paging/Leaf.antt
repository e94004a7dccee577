-- ===== src/Paging/Leaf.antt =====
-- kernel/page.c: the mapped page is the one that the walks find, and an unmapped one is gone.
use riscv_os.Paging.Address.{walk-Tables, leaf_address-flag_bits, walkaddr-walk}
use riscv_os.Prelude.{
  ℕ, ◌+◌, ◌%◌, ◌^◌, ◌≤◌, ◌<◌, ◌≡◌, sym, ap, ◌∙◌, ◌≢◌, true, ◌||◌, arith, none, some, List,
}
use riscv_os.Frames.{Memory, page_size}
use riscv_os.Frames.Chain.{IsFrames, IsTaken, store_self, store_ne}
use riscv_os.Frames.Handed.{capacity}
use riscv_os.Paging.{
  Flags, flag_bits, pa_to_pte, slot, px2, px1, px0, store_word, next_table, set_leaf, map_page,
  unmap_page, walk_page, walk, leaf_address, walkaddr, maxva,
}
use riscv_os.Paging.Entry.{valid-flag_bits, pte_to_pa-flag_bits, slots_apart}
use riscv_os.Paging.Level.{store_word-IsFrames}
use riscv_os.Paging.Map.{IsPath, Tables, walk_page-Tables, map_levels, px_bounds}

-- A store to another word than the two entries leaves the tables above the leaf table.
pub store_page-Tables :
    (root va t1 t0 a v : ℕ) (m : Memory) (l : List ℕ)
    → a ≢ slot root (px2 va)
    → a ≢ slot t1 (px1 va)
    → Tables m l root va t1 t0
    → Tables (store_word a v m) l root va t1 t0
store_page-Tables root va t1 t0 a v m l ne2 ne1 t =
    let same2 = store_ne m.word a v (λ e. ne2 (sym e)) in
    let same1 = store_ne m.word a v (λ e. ne1 (sym e)) in
    record {
      root_taken = taken_store root t.root_taken;
      taken1 = taken_store t1 t.taken1;
      taken0 = taken_store t0 t.taken0;
      apart1 = t.apart1;
      apart0 = t.apart0;
      apart_root = t.apart_root;
      valid2 = rw same2 t.valid2;
      leads2 = rw same2 t.leads2;
      valid1 = rw same1 t.valid1;
      leads1 = rw same1 t.leads1;
    }
  where
    taken_store : (q : ℕ) → IsTaken m l q → IsTaken (store_word a v m) l q
    taken_store q w = record {
      nonnull = w.nonnull;
      aligned = w.aligned;
      below = w.below;
      away = w.away;
    }

-- So does a store into the leaf table.
store_leaf-Tables :
    (root va t1 t0 i v : ℕ) (m : Memory) (l : List ℕ)
    → i < 512
    → Tables m l root va t1 t0
    → Tables (store_word (slot t0 i) v m) l root va t1 t0
store_leaf-Tables root va t1 t0 i v m l hi t =
    let apart2 : slot root (px2 va) ≢ slot t0 i =
      slots_apart root t0 (px2 va) i t.root_taken.aligned t.taken0.aligned (px_bounds va).0 hi
        (λ e. t.apart_root (sym e)) in
    let apart1 : slot t1 (px1 va) ≢ slot t0 i =
      slots_apart t1 t0 (px1 va) i t.taken1.aligned t.taken0.aligned (px_bounds va).1 hi
        (λ e. t.apart0 (sym e)) in
    store_page-Tables root va t1 t0 (slot t0 i) v m l (λ e. apart2 (sym e)) (λ e. apart1 (sym e)) t

map_page-set_leaf :
    (ram_end owner root va pa t1 t0 : ℕ) (flags : Flags) (m m1 m0 : Memory)
    → va % page_size ≡ 0
    → pa % page_size ≡ 0
    → next_table ram_end owner root (px2 va) m ≡ some (t1, m1)
    → next_table ram_end owner t1 (px1 va) m1 ≡ some (t0, m0)
    → map_page ram_end owner root va pa flags m ≡ some (set_leaf ram_end owner t0 va pa flags m0)
unfolding map_page
map_page-set_leaf ram_end owner root va pa t1 t0 flags m m1 m0 ev ep e1 e0 =
    rw (ev, ep, e1, map_page) (rw e0)

-- The state after a successful `map_page`, with the tables of the address.
pub record IsMapped (ram_end root va pa : ℕ) (flags : Flags) (m : Memory) : Type 0 where
  pub free_pages : List ℕ
  pub t1 : ℕ
  pub t0 : ℕ
  pub frames : IsFrames ram_end m free_pages
  pub tables : Tables m free_pages root va t1 t0
  pub leaf : m.word (slot t0 (px0 va)) ≡ pa_to_pte pa + flag_bits flags

-- `map_page` of a whole page at a whole page's address, with the tables of the address in order
-- (`IsPath`) and two pages left to hand out, succeeds; the allocator's state is kept, and the
-- tables then lead from the root to an entry with the page and its flags (`IsMapped`).
pub map_page-IsMapped :
    (ram_end owner root va pa : ℕ) (flags : Flags) (m : Memory) (l : List ℕ)
    → IsFrames ram_end m l
    → IsPath m l root va
    → 2 ≤ capacity ram_end m l
    → va % page_size ≡ 0
    → pa % page_size ≡ 0
    → (m' : Memory) × (map_page ram_end owner root va pa flags m ≡ some m')
      × IsMapped ram_end root va pa flags m'
unfolding set_leaf
map_page-IsMapped ram_end owner root va pa flags m l f p room ev ep =
    let d = map_levels ram_end owner root va m l f p room in
    let m' = store_word (slot d.t0 (px0 va)) (pa_to_pte pa + flag_bits flags) d.m0 in
    (
      m',
      map_page-set_leaf ram_end owner root va pa d.t1 d.t0 flags m d.m1 d.m0 ev ep d.step1 d.step0,
      record {
        free_pages = d.l0;
        t1 = d.t1;
        t0 = d.t0;
        frames =
            store_word-IsFrames ram_end d.t0 (px0 va) _ d.m0 d.l0 d.frames d.tables.taken0
              (px_bounds va).2;
        tables = store_leaf-Tables root va d.t1 d.t0 (px0 va) _ d.m0 d.l0 (px_bounds va).2 d.tables;
        leaf = store_self d.m0.word (slot d.t0 (px0 va)) _;
      },
    )

-- Where `va` is mapped to the page at `pa`, in the state that `map_page` leaves (`IsMapped`), and
-- `pa` is a whole page's address below 2^64, `walk_page` returns `pa`.
walk_page-IsMapped :
    (ram_end root va pa : ℕ) (flags : Flags) (m : Memory)
    → IsMapped ram_end root va pa flags m
    → pa % page_size ≡ 0
    → pa < 2 ^ 64
    → walk_page root va m ≡ pa
walk_page-IsMapped ram_end root va pa flags m d ep small =
    walk_page-Tables d.tables
    ∙ rw (d.leaf, valid-flag_bits pa flags) (pte_to_pa-flag_bits pa flags ep small)

-- The same for the tables of the address and the leaf entry alone.
pub walkaddr-Tables :
    (kernel_base root va off pa t1 t0 : ℕ) (flags : Flags) (m : Memory) (l : List ℕ)
    → Tables m l root va t1 t0
    → m.word (slot t0 (px0 va)) ≡ pa_to_pte pa + flag_bits flags
    → kernel_base ≤ maxva
    → va % page_size ≡ 0
    → off < page_size
    → va + off < kernel_base
    → pa % page_size ≡ 0
    → pa + off < 2 ^ 64
    → (flags.r || (flags.w || flags.x)) ≡ true
    → walkaddr kernel_base root (va + off) m ≡ some (pa + off)
walkaddr-Tables kernel_base root va off pa t1 t0 flags m l t leaf top ev small low ep fits
      permission =
    walkaddr-walk kernel_base root (va + off) (slot t0 (px0 va)) m low
      (walk-Tables root va off t1 t0 m l t ev small (omega arith))
      (λ e. t.taken0.nonnull (omega arith))
    ∙ ap some (
        ap (leaf_address (va + off)) leaf
        ∙ leaf_address-flag_bits va off pa flags ev small ep fits permission)

-- At every byte of a page below the kernel that is mapped with some permission to a whole page
-- within 64 bits, in the state that `map_page` leaves (`IsMapped`), and with the kernel below 2^39,
-- `walkaddr` gives the byte's physical address.
pub walkaddr-IsMapped :
    (ram_end kernel_base root va off pa : ℕ) (flags : Flags) (m : Memory)
    → IsMapped ram_end root va pa flags m
    → kernel_base ≤ maxva
    → va % page_size ≡ 0
    → off < page_size
    → va + off < kernel_base
    → pa % page_size ≡ 0
    → pa + off < 2 ^ 64
    → (flags.r || (flags.w || flags.x)) ≡ true
    → walkaddr kernel_base root (va + off) m ≡ some (pa + off)
walkaddr-IsMapped ram_end kernel_base root va off pa flags m d top ev small low ep fits permission =
    walkaddr-Tables kernel_base root va off pa d.t1 d.t0 flags m d.free_pages d.tables d.leaf top ev
      small low ep fits permission

-- Where the kernel begins no higher than 2^39, `walkaddr` never halts the machine, whatever the
-- address and the memory are.
walkaddr-ne-none :
    (kernel_base root va : ℕ) (m : Memory)
    → kernel_base ≤ maxva
    → walkaddr kernel_base root va m ≢ none
unfolding walkaddr walk
walkaddr-ne-none kernel_base root va m top = ground arith

unmap_page-Tables :
    (root va t1 t0 : ℕ) (m : Memory) (l : List ℕ)
    → Tables m l root va t1 t0
    → va % page_size ≡ 0
    → unmap_page root va m ≡ some (store_word (slot t0 (px0 va)) 0 m)
unfolding unmap_page
unmap_page-Tables root va t1 t0 m l t ev = rw (ev, t.valid2, t.leads2) (rw (t.valid1, t.leads1))

-- `unmap_page` of a whole page's address that is mapped (`IsMapped`) succeeds and keeps the
-- allocator's state, and `walk_page` finds no page there afterwards.
pub walk_page-unmap_page :
    (ram_end root va pa : ℕ) (flags : Flags) (m : Memory)
    → (d : IsMapped ram_end root va pa flags m) → va % page_size ≡ 0
    → (m' : Memory) × (unmap_page root va m ≡ some m')
      × IsFrames ram_end m' d.free_pages
      × (walk_page root va m' ≡ 0)
walk_page-unmap_page ram_end root va pa flags m d ev =
    let m' = store_word (slot d.t0 (px0 va)) 0 m in
    let zero_leaf : m'.word (slot d.t0 (px0 va)) ≡ 0 = store_self m.word (slot d.t0 (px0 va)) 0 in
    (
      m',
      unmap_page-Tables root va d.t1 d.t0 m d.free_pages d.tables ev,
      store_word-IsFrames ram_end d.t0 (px0 va) 0 m d.free_pages d.frames d.tables.taken0
          (px_bounds va).2,
      walk_page-Tables (
            store_leaf-Tables root va d.t1 d.t0 (px0 va) 0 m d.free_pages (px_bounds va).2 d.tables)
          ∙ rw zero_leaf,
    )
