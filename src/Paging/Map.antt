-- ===== src/Paging/Map.antt =====
-- kernel/page.c: `map_page`, `unmap_page` and the walks agree.
use riscv_os.Prelude.{
  ℕ, ◌+◌, ◌≤◌, ◌<◌, ◌≡◌, sym, ◌∙◌, ◌≢◌, inl, inr, true, not, arith, some, List, if◌then◌else◌,
}
use riscv_os.Frames.{Memory}
use riscv_os.Frames.Chain.{IsFrames, IsTaken}
use riscv_os.Frames.Handed.{capacity}
use riscv_os.Paging.{valid, pte_to_pa, slot, px2, px1, px0, next_table, walk_page}
use riscv_os.Paging.Entry.{slots_apart}
use riscv_os.Paging.Level.{Level, Leads}
use riscv_os.Paging.Walk.{next_table-Level}

-- The tables of one address: each is handed out, and they are three pages.
pub record IsPath (m : Memory) (l : List ℕ) (root va : ℕ) : Type 0 where
  pub root_taken : IsTaken m l root
  pub level1 : Leads m l root (px2 va)
  pub level0 :
      valid (m.word (slot root (px2 va))) ≡ true
      → Leads m l (pte_to_pa (m.word (slot root (px2 va)))) (px1 va)
        × (valid (m.word (slot (pte_to_pa (m.word (slot root (px2 va)))) (px1 va))) ≡ true
            → pte_to_pa (m.word (slot (pte_to_pa (m.word (slot root (px2 va)))) (px1 va))) ≢ root)

-- The tables are there: from `root` through `t1` to `t0`.
pub record Tables (m : Memory) (l : List ℕ) (root va t1 t0 : ℕ) : Type 0 where
  pub root_taken : IsTaken m l root
  pub taken1 : IsTaken m l t1
  pub taken0 : IsTaken m l t0
  pub apart1 : t1 ≢ root
  pub apart0 : t0 ≢ t1
  pub apart_root : t0 ≢ root
  pub valid2 : valid (m.word (slot root (px2 va))) ≡ true
  pub leads2 : pte_to_pa (m.word (slot root (px2 va))) ≡ t1
  pub valid1 : valid (m.word (slot t1 (px1 va))) ≡ true
  pub leads1 : pte_to_pa (m.word (slot t1 (px1 va))) ≡ t0

module _ {m : Memory} {l : List ℕ} {root va t1 t0 : ℕ} (t : Tables m l root va t1 t0) where
  pub walk_page-Tables : walk_page root va m ≡ (
      if not (valid (m.word (slot t0 (px0 va)))) then 0 else pte_to_pa (m.word (slot t0 (px0 va))))
  unfolding walk_page
  walk_page-Tables = rw (t.valid2, t.leads2) (rw (t.valid1, t.leads1))

pub px_bounds : (va : ℕ) → (px2 va < 512) × (px1 va < 512) × (px0 va < 512)
px_bounds va = omega arith

level0-Leads :
    (ram_end root va t1 : ℕ) (m m1 : Memory) (l l1 : List ℕ)
    → IsPath m l root va
    → Level ram_end m l root (px2 va) t1 m1 l1
    → Leads m1 l1 t1 (px1 va)
      × (valid (m1.word (slot t1 (px1 va))) ≡ true → pte_to_pa (m1.word (slot t1 (px1 va))) ≢ root)
level0-Leads ram_end root va t1 m m1 l l1 p lv = elim lv.old [
  | inl (em, el, v) ↦
      let e : pte_to_pa (m.word (slot root (px2 va))) ≡ t1 = rw em at (lv.entry_leads) in
      rw (em, el) (rw e at (p.level0 v))
  | inr (new, zeros) ↦ (
    λ v. absurd (zero_invalid _ (zeros (px1 va) (px_bounds va).1) v),
    λ v. absurd (zero_invalid _ (zeros (px1 va) (px_bounds va).1) v),
  )
]
  where
    zero_invalid : (e : ℕ) → e ≡ 0 → valid e ≡ true → ⊥
    zero_invalid e z v = ground arith

t0_ne_root :
    (ram_end root va t1 t0 : ℕ) (m1 m0 : Memory) (l1 l0 : List ℕ)
    → IsTaken m1 l1 root
    → (valid (m1.word (slot t1 (px1 va))) ≡ true → pte_to_pa (m1.word (slot t1 (px1 va))) ≢ root)
    → Level ram_end m1 l1 t1 (px1 va) t0 m0 l0
    → t0 ≢ root
t0_ne_root ram_end root va t1 t0 m1 m0 l1 l0 taken ne lv = elim lv.old [
  | inl (em, el, v) ↦ λ e. ne v ((rw em at (lv.entry_leads)) ∙ e)
  | inr (new, zeros) ↦ λ e. new root taken (sym e)
]

-- What the two upper levels of `map_page` do.
pub record Mapped (ram_end owner root va : ℕ) (m : Memory) (l : List ℕ) : Type 0 where
  pub t1 : ℕ
  pub t0 : ℕ
  pub m1 : Memory
  pub m0 : Memory
  pub l0 : List ℕ
  pub step1 : next_table ram_end owner root (px2 va) m ≡ some (t1, m1)
  pub step0 : next_table ram_end owner t1 (px1 va) m1 ≡ some (t0, m0)
  pub frames : IsFrames ram_end m0 l0
  pub tables : Tables m0 l0 root va t1 t0
  pub spent : capacity ram_end m l ≤ capacity ram_end m0 l0 + 2

two_levels :
    (ram_end root va t1 t0 : ℕ) (m m1 m0 : Memory) (l l1 l0 : List ℕ)
    → IsTaken m l root
    → t0 ≢ root
    → Level ram_end m l root (px2 va) t1 m1 l1
    → Level ram_end m1 l1 t1 (px1 va) t0 m0 l0
    → Tables m0 l0 root va t1 t0
two_levels ram_end root va t1 t0 m m1 m0 l l1 l0 rt ne a b =
    let same : m0.word (slot root (px2 va)) ≡ m1.word (slot root (px2 va)) =
      b.same root (slot root (px2 va))
        (record { page = a.kept root rt; low = omega arith; high = omega arith })
        (slots_apart root t1 (px2 va) (px1 va) rt.aligned (a.taken).aligned (px_bounds va).0
          (px_bounds va).1 (λ e. a.apart (sym e))) in
    record {
      root_taken = b.kept root (a.kept root rt);
      taken1 = b.kept t1 a.taken;
      taken0 = b.taken;
      apart1 = a.apart;
      apart0 = b.apart;
      apart_root = ne;
      valid2 = rw same (a.entry_valid);
      leads2 = rw same (a.entry_leads);
      valid1 = b.entry_valid;
      leads1 = b.entry_leads;
    }

pub map_levels :
    (ram_end owner root va : ℕ) (m : Memory) (l : List ℕ)
    → IsFrames ram_end m l
    → IsPath m l root va
    → 2 ≤ capacity ram_end m l
    → Mapped ram_end owner root va m l
map_levels ram_end owner root va m l f p room =
    let (t1, m1, l1, e1, a) =
      next_table-Level ram_end owner root (px2 va) m l f p.root_taken (px_bounds va).0 p.level1
        (omega arith) in
    let (leads, ne) = level0-Leads ram_end root va t1 m m1 l l1 p a in
    let (t0, m0, l0, e0, b) =
      next_table-Level ram_end owner t1 (px1 va) m1 l1 a.frames a.taken (px_bounds va).1 leads
        (omega (arith, a.spent)) in
    record {
      t1 = t1;
      t0 = t0;
      m1 = m1;
      m0 = m0;
      l0 = l0;
      step1 = e1;
      step0 = e0;
      frames = b.frames;
      tables =
          two_levels ram_end root va t1 t0 m m1 m0 l l1 l0 p.root_taken
            (t0_ne_root ram_end root va t1 t0 m1 m0 l1 l0 (a.kept root p.root_taken) ne b) a b;
      spent = omega (arith, a.spent, b.spent);
    }
