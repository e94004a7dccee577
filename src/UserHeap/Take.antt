-- ===== src/UserHeap/Take.antt =====
-- user/lib/malloc.c: the loop over the free blocks takes the first one that is large enough.
use riscv_os.UserHeap.Links.{
  write_self, write_ne, relink-link, relink_size, relink_first, relink_other, inside_ne,
}
use riscv_os.Prelude.{
  u64, ℕ, zero, suc, ◌+◌, ◌-◌, ◌≤◌, ◌<◌, ◌≡◌, refl, sym, ap, subst, ◌∙◌, ◌≢◌, inl, inr, false,
  Option, none, some, List, [], ◌∷◌, leb, ◌==◌, if◌then◌else◌, ◌>>=◌, arith, length, Bool-cases,
  ne→==_false, leb→le,
}
use riscv_os.UserHeap.{UserHeap, block_size, write, relink, take_block, search_list}
use riscv_os.UserHeap.FreeList.{
  Span, Chain, Outside, Apart, Blocks, rest_of, first_fit, Apart-Outside, Chain-same, link, Linked,
}

module _ (prev size : ℕ) (h : UserHeap) (s : Span) (l : List Span) (nonzero : s.at ≢ 0)
    (same_size : (h.block s.at).size ≡ s.size) (chain : Chain h.block (h.block s.at).next l)
    (fits : size ≤ s.size) (blocks : Blocks (s ∷ l)) (out : Outside prev (s ∷ l)) where
  rest : ℕ
  rest = s.at + 16 + size

  -- The heap with the block split
  split_heap : UserHeap
  unfolding rest
  split_heap = record h {
    block =
        write
          (write h.block rest
            (record { size = (h.block s.at).size - size - block_size; next = (h.block s.at).next }))
          s.at (record (h.block s.at) { size = size });
  }

  split_other : (q : ℕ) → q ≢ rest → q ≢ s.at → split_heap.block q ≡ h.block q
  unfolding split_heap
  split_other q nr ns = write_ne _ s.at _ q ns ∙ write_ne h.block rest _ q nr

  prev_at : prev ≢ s.at
  prev_at = inside_ne s prev s.at l out (omega arith) (omega arith)

  whole-Linked : Linked prev h (relink prev (h.block s.at).next h) (s ∷ l) l
  whole-Linked = record {
    chain =
        subst (λ a. Chain (relink prev (h.block s.at).next h).block a l)
          (sym (relink-link prev (h.block s.at).next h))
          (Chain-same h.block _ (h.block s.at).next l
            (λ x inside.
              relink_other prev (h.block s.at).next h x
                (λ e. inside (subst (λ y. Outside y l) (sym e) out.1)))
            chain);
    size = relink_size prev (h.block s.at).next h;
    first = relink_first prev (h.block s.at).next h;
    others = λ x ne o. relink_other prev (h.block s.at).next h x ne;
  }

  split-Linked :
      size + 24 ≤ s.size
      → Linked prev h
          (relink prev rest split_heap)
          (s ∷ l)
          (record { at = rest; size = s.size - size - 16 } ∷ l)
  unfolding rest split_heap
  split-Linked larger =
      let new = relink prev rest split_heap in
      let rest_prev : rest ≢ prev =
        λ e. inside_ne s prev rest l out (omega arith) (omega arith) (sym e) in
      let header : new.block rest
          ≡ record { size = (h.block s.at).size - size - block_size; next = (h.block s.at).next } =
        relink_other prev rest split_heap rest rest_prev
        ∙ write_ne _ s.at _ rest (λ e. absurd (omega (arith, e)))
        ∙ write_self h.block rest _ in
      let keeps : (x : ℕ) → (Outside x l → ⊥) → new.block x ≡ h.block x = λ x inside.
        relink_other prev rest split_heap x (λ e. inside (subst (λ y. Outside y l) (sym e) out.1))
        ∙ split_other x
            (λ e. inside (
              subst (λ y. Outside y l) (sym e)
                (Apart-Outside s rest l (omega arith) (omega arith) blocks.1)))
            (λ e. inside (
              subst (λ y. Outside y l) (sym e)
                (Apart-Outside s s.at l (omega arith) (omega arith) blocks.1))) in
      record {
        chain =
            subst (λ a. Chain new.block a (record { at = rest; size = s.size - size - 16 } ∷ l))
              (sym (relink-link prev rest split_heap))
              (
                refl,
                (λ e. absurd (omega (arith, e))),
                ap (λ b. b.size) header ∙ ap (λ n. n - size - 16) same_size,
                subst (λ b. Chain new.block b.next l) (sym header)
                    (Chain-same h.block new.block (h.block s.at).next l keeps chain),
              );
        size =
            relink_size prev rest split_heap
            ∙ ap (λ b. b.size) (split_other prev (λ e. rest_prev (sym e)) prev_at);
        first = relink_first prev rest split_heap;
        others = λ x ne o.
            relink_other prev rest split_heap x ne
            ∙ split_other x (inside_ne s x rest l o (omega arith) (omega arith))
                (inside_ne s x s.at l o (omega arith) (omega arith));
      }

  take_block-Linked : Linked prev h (take_block prev s.at size h) (s ∷ l) (rest_of size s l)
  unfolding take_block rest split_heap
  take_block-Linked =
      let sum : u64 (size + (block_size + 8)) ≡ size + 24 = omega arith in
      let same : leb (u64 (size + (block_size + 8))) (h.block s.at).size ≡ leb (size + 24) s.size =
        ap (leb (u64 (size + (block_size + 8)))) same_size ∙ ap (λ n. leb n s.size) sum in
      elim (Bool-cases (leb (size + 24) s.size)) [
        | inl e ↦ rw (same ∙ e, e) (split-Linked (leb→le (size + 24) s.size e))
        | inr e ↦ rw (same ∙ e, e) whole-Linked
      ]

-- The outcome of the loop for that on the list of blocks.
abbrev pub Found :
    ℕ → UserHeap → List Span → Option (Option (ℕ × UserHeap)) → Option (ℕ × List Span) → Type 0
Found prev h l o none = o ≡ some none
Found prev h l o (some (p, l')) =
    (h' : UserHeap) × (o ≡ some (some (p + block_size, h'))) × Linked prev h h' l l'

-- A block in front that is too small is passed over.
pass_over :
    (prev : ℕ) (h : UserHeap) (s : Span) (l : List Span) (o : Option (Option (ℕ × UserHeap)))
    (r : Option (ℕ × List Span))
    → link prev h ≡ s.at
    → s.at ≢ 0
    → (h.block s.at).size ≡ s.size
    → Outside prev (s ∷ l)
    → Found s.at h l o r
    → Found prev h (s ∷ l) o (r >>= λ (p, l'). some (p, s ∷ l'))
pass_over prev h s l o none el nonzero es out found = found
pass_over prev h s l o (some (p, l')) el nonzero es out (h', eo, k) =
    let prev_at : prev ≢ s.at = inside_ne s prev s.at l out (omega arith) (omega arith) in
    let same : h'.block prev ≡ h.block prev = k.others prev prev_at out.1 in
    let same_link : link prev h' ≡ s.at =
      ap (λ n. if prev == 0 then n else (h'.block prev).next) (k.first nonzero)
      ∙ ap (λ b. if prev == 0 then h.free_list else b.next) same
      ∙ el in
    (
      h',
      eo,
      record {
        chain = (
          same_link,
          nonzero,
          k.size ∙ es,
          subst (λ n. Chain h'.block n l')
              (ap (λ b. if b then h'.free_list else (h'.block s.at).next)
                (ne→==_false s.at 0 nonzero))
              k.chain,
        );
        size = ap (λ b. b.size) same;
        first = λ ne. k.first nonzero;
        others = λ x ne o. k.others x (inside_ne s x s.at l o (omega arith) (omega arith)) o.1;
      },
    )

Outside-Apart : (s : Span) (l : List Span) → Apart s l → Outside s.at l
Outside-Apart s l h = Apart-Outside s s.at l (omega arith) (omega arith) h

pub search-Found :
    (fuel prev size curr : ℕ) (h : UserHeap) (l : List Span)
    → length l < fuel
    → link prev h ≡ curr
    → Chain h.block curr l
    → Blocks l
    → Outside prev l
    → Found prev h l (search_list fuel prev curr size h) (first_fit size l)
unfolding search_list
search-Found zero prev size curr h l enough el c b out = absurd (omega arith)
search-Found (suc fuel) prev size curr h [] enough el c b out = rw c
search-Found (suc fuel) prev size curr h (s ∷ l) enough el c b out =
    let nonzero : (curr == 0) ≡ false = ne→==_false curr 0 (λ e. c.1 (sym c.0 ∙ e)) in
    let large : leb size (h.block curr).size ≡ leb size s.size =
      ap (λ a. leb size (h.block a).size) c.0 ∙ ap (leb size) c.2 in
    elim (Bool-cases (leb size s.size)) [
      | inl e ↦
          rw (search_list, nonzero, large ∙ e, e)
            (
              take_block prev curr size h,
              ap (λ a. some (some (a + block_size, take_block prev curr size h))) c.0,
              subst (λ a. Linked prev h (take_block prev a size h) (s ∷ l) (rest_of size s l))
                  (sym c.0)
                  (take_block-Linked prev size h s l c.1 c.2 c.3 (leb→le size s.size e) b out),
            )
      | inr e ↦
          let next : link s.at h ≡ (h.block curr).next =
            ap (λ t. if t then h.free_list else (h.block s.at).next) (ne→==_false s.at 0 c.1)
            ∙ ap (λ a. (h.block a).next) (sym c.0) in
          rw (search_list, nonzero, large ∙ e, e)
            (pass_over prev h s l (search_list fuel curr (h.block curr).next size h)
              (first_fit size l) (el ∙ c.0) c.1 c.2 out
              (subst
                (λ a.
                  Found s.at h l (search_list fuel a (h.block curr).next size h) (first_fit size l))
                (sym c.0)
                (search-Found fuel s.at size (h.block curr).next h l (omega arith) next
                  (subst (λ a. Chain h.block (h.block a).next l) (sym c.0) c.3) b.2
                  (Outside-Apart s l b.1))))
    ]
