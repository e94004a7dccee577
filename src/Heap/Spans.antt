-- ===== src/Heap/Spans.antt =====
-- The heap of kernel/heap.c as a client sees it: the blocks in address order, each with its size
-- and whether it is free.
use riscv_os.Prelude.{
  ℕ, ◌+◌, ◌-◌, Bool, true, false, ◌&&◌, Option, none, some, List, [], ◌∷◌, leb, ◌==◌, if◌then◌else◌,
}
use riscv_os.Heap.{block_size}
use mathlib.Core.Option

abbrev pub Span : Type 0
Span = ℕ × Bool

-- What is left of the first block when `size` bytes of it are used.
unfoldable pub split : ℕ → ℕ → List Span → List Span
split size have bs =
    if leb (size + block_size + 8) have
    then (size, false) ∷ (have - size - block_size, true) ∷ bs
    else (have, false) ∷ bs

-- First fit, at address `at`: the address of the bytes, and the blocks after.
unfoldable pub allocate : ℕ → ℕ → List Span → Option (ℕ × List Span)
unfolding split
allocate size at [] = none
allocate size at ((have, is_free) ∷ bs) =
    if is_free && leb size have
    then some (at + block_size, split size have bs)
    else Option.map (λ (p, bs'). (p, (have, is_free) ∷ bs'))
        (allocate size (at + block_size + have) bs)

-- A free block takes in a free one behind it.
unfoldable pub merge : ℕ → List Span → List Span
merge have [] = (have, true) ∷ []
merge have ((size, is_free) ∷ bs) =
    if is_free then (have + (block_size + size), true) ∷ bs else (have, true) ∷ (size, is_free) ∷ bs

-- Giving back the block whose bytes begin at `p`.
unfoldable pub release : ℕ → ℕ → List Span → Option (List Span)
unfolding merge
release p at [] = none
release p at ((have, is_free) ∷ bs) =
    if p == at + block_size
    then some (merge have bs)
    else Option.map (λ bs'. (have, is_free) ∷ bs') (release p (at + block_size + have) bs)

-- The blocks in use: where their bytes begin, and how many they are.
unfoldable pub live : ℕ → List Span → List (ℕ × ℕ)
live at [] = []
live at ((have, true) ∷ bs) = live (at + block_size + have) bs
live at ((have, false) ∷ bs) = (at + block_size, have) ∷ live (at + block_size + have) bs
