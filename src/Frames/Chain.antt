-- ===== src/Frames/Chain.antt =====
-- kernel/page.c: the free list is a chain through the first words of the free pages.
use riscv_os.Prelude.{
  ℕ, ◌+◌, ◌%◌, ◌^◌, ◌≤◌, ◌<◌, ◌≡◌, sym, subst, ◌≢◌, ◌⊎◌, List, [], ◌∷◌, arith, length, ne→==_false,
  ==_refl,
}
use riscv_os.Frames.{Memory, page_size, store, clear}

-- The pages that the links lead through from `p`.
abbrev pub Chain : (ℕ → ℕ) → ℕ → List ℕ → Type 0
Chain w p [] = p ≡ 0
Chain w p (q ∷ l) = (p ≡ q) × (q ≢ 0) × Chain w (w q) l

-- `p` is none of the pages.
abbrev pub Away : ℕ → List ℕ → Type 0
Away p [] = Unit {0}
Away p (q ∷ l) = (p ≢ q) × Away p l

-- Whole pages below `top`, each once.
abbrev pub Pages : ℕ → List ℕ → Type 0
Pages top [] = Unit {0}
Pages top (q ∷ l) = (q % page_size ≡ 0) × (q < top) × Away q l × Pages top l

-- The allocator's state: `l` are the free pages, and everything from `next_paddr` on is fresh.
pub record IsFrames (ram_end : ℕ) (m : Memory) (l : List ℕ) : Type 0 where
  pub chain : Chain m.word m.free_list l
  pub counted : m.g_free_pages ≡ length l
  pub short : length l + 1 < 2 ^ 64
  pub pages : Pages m.next_paddr l
  pub next_aligned : m.next_paddr % page_size ≡ 0
  pub next_pos : 0 < m.next_paddr
  pub next_in : m.next_paddr ≤ ram_end
  pub end_in : ram_end + page_size < 2 ^ 64

-- A page that is handed out: whole, below the fresh ones and not free.
pub record IsTaken (m : Memory) (l : List ℕ) (p : ℕ) : Type 0 where
  pub nonnull : p ≢ 0
  pub aligned : p % page_size ≡ 0
  pub below : p < m.next_paddr
  pub away : Away p l

pub store_self : (w : ℕ → ℕ) (a v : ℕ) → store w a v a ≡ v
unfolding store
store_self w a v = rw (==_refl a)

pub store_ne : (w : ℕ → ℕ) (a v : ℕ) {b : ℕ} → b ≢ a → store w a v b ≡ w b
unfolding store
store_ne w a v {b} h = rw (ne→==_false b a h)

pub clear_inside : (w : ℕ → ℕ) (p n a : ℕ) → p ≤ a → a < p + n → clear w p n a ≡ 0
unfolding clear
clear_inside w p n a h k = ground arith

pub clear_outside : (w : ℕ → ℕ) (p n a : ℕ) → (a < p) ⊎ (p + n ≤ a) → clear w p n a ≡ w a
unfolding clear
clear_outside w p n a h = ground arith

-- Two whole pages that differ do not overlap.
pub pages_apart :
    (p q : ℕ) → p % page_size ≡ 0 → q % page_size ≡ 0 → p ≢ q → (p < q) ⊎ (q + page_size ≤ p)
pages_apart p q ep eq ne = omega arith

pub Pages-mono : (top top' : ℕ) (l : List ℕ) → top ≤ top' → Pages top l → Pages top' l
Pages-mono top top' [] h p = tt
Pages-mono top top' (q ∷ l) h (e, b, a, r) = (e, omega arith, a, Pages-mono top top' l h r)

pub Pages-Away : (top p : ℕ) (l : List ℕ) → top ≤ p → Pages top l → Away p l
Pages-Away top p [] h g = tt
Pages-Away top p (q ∷ l) h (e, b, a, r) = (omega arith, Pages-Away top p l h r)

-- A change of memory that leaves the first word of every free page leaves the chain.
pub Chain-frame :
    (w w' : ℕ → ℕ) (p : ℕ) (l : List ℕ) (x : ℕ)
    → ((q : ℕ) → q % page_size ≡ 0 → q ≢ x → w' q ≡ w q)
    → (top : ℕ) → Pages top l
    → Away x l
    → Chain w p l
    → Chain w' p l
Chain-frame w w' p [] x same top g away c = c
Chain-frame w w' p (q ∷ l) x same top (e, b, a, r) (ne, away) (ep, nz, c) = (
  ep,
  nz,
  subst (λ t. Chain w' t l) (sym (same q e (λ h. ne (sym h))))
      (Chain-frame w w' (w q) l x same top r away c),
)
