-- ===== src/Text.antt =====
-- kernel/string.c and its copy user/lib/string.c. A pointer is the list of the bytes from it to the
-- end of its object, and `none` is a read or a write behind that end. A function that writes
-- returns the object; the two objects of a copy do not overlap.
pub mod Compare
pub mod Copy
pub mod Search
pub mod Token
pub mod Words
pub mod Cut
pub mod Calls
mod Tests
use mathlib.Core.Option
use riscv_os.Prelude.{
  ℕ, zero, suc, ◌+◌, ◌-◌, ◌%◌, ℤ, pos, sub_ℕ, Bool, true, false, not, ◌&&◌, Option, none, some,
  List, [], ◌∷◌, leb, ltb, ◌==◌, if◌then◌else◌,
}

-- The difference is that of two `unsigned char`.
unfoldable pub strcmp : List ℕ → List ℕ → Option ℤ
strcmp [] t = none
strcmp (a ∷ s) [] = none
strcmp (a ∷ s) (b ∷ t) =
    let rest = strcmp s t in if not (a == 0) && a == b then rest else some (sub_ℕ a b)

unfoldable pub strncmp : List ℕ → List ℕ → ℕ → Option ℤ
strncmp s t zero = some (pos 0)
strncmp [] t (suc n) = none
strncmp (a ∷ s) [] (suc n) = none
strncmp (a ∷ s) (b ∷ t) (suc n) =
    let rest = strncmp s t n in
    if not (a == b) then some (sub_ℕ a b) else if a == 0 then some (pos 0) else rest

unfoldable pub strlen : List ℕ → Option ℕ
strlen [] = none
strlen (c ∷ s) = if c == 0 then some 0 else Option.map suc (strlen s)

unfoldable pub strnlen : List ℕ → ℕ → Option ℕ
strnlen s zero = some 0
strnlen [] (suc n) = none
strnlen (c ∷ s) (suc n) = if c == 0 then some 0 else Option.map suc (strnlen s n)

unfoldable pub strcpy : List ℕ → List ℕ → Option (List ℕ)
strcpy d [] = none
strcpy [] (c ∷ s) = none
strcpy (x ∷ d) (c ∷ s) = if c == 0 then some (0 ∷ d) else Option.map (λ d'. c ∷ d') (strcpy d s)

-- The second loop of `strncpy`, and `memset`.
unfoldable pub memset : List ℕ → ℕ → ℕ → Option (List ℕ)
memset d v zero = some d
memset [] v (suc n) = none
memset (x ∷ d) v (suc n) = Option.map (λ d'. (v % 256) ∷ d') (memset d v n)

unfoldable pub strncpy : List ℕ → List ℕ → ℕ → Option (List ℕ)
unfolding memset
strncpy d s zero = some d
strncpy [] s (suc n) = none
strncpy (x ∷ d) [] (suc n) = none
strncpy (x ∷ d) (c ∷ s) (suc n) =
    if c == 0 then memset (x ∷ d) 0 (suc n) else Option.map (λ d'. c ∷ d') (strncpy d s n)

unfoldable pub memcpy : List ℕ → List ℕ → ℕ → Option (List ℕ)
memcpy d s zero = some d
memcpy [] s (suc n) = none
memcpy (x ∷ d) [] (suc n) = none
memcpy (x ∷ d) (c ∷ s) (suc n) = Option.map (λ d'. c ∷ d') (memcpy d s n)

-- The inner loop of `strstr` and the test behind it: the needle ends before a difference.
unfoldable pub matches : List ℕ → List ℕ → Option Bool
matches [] n = none
matches (a ∷ h) [] = none
matches (a ∷ h) (b ∷ n) =
    let rest = matches h n in
    if not (a == 0) && (not (b == 0) && a == b) then rest else some (b == 0)

-- The outer loop of `strstr`: where the match begins, if there is one.
unfoldable pub strstr_loop : List ℕ → List ℕ → Option (Option ℕ)
unfolding matches
strstr_loop [] n = none
strstr_loop (a ∷ h) n =
    let rest = Option.map (Option.map suc) (strstr_loop h n) in
    if a == 0
    then some none
    else elim (matches (a ∷ h) n) [ none ↦ none | some true ↦ some (some 0) | some false ↦ rest ]

unfoldable pub strstr : List ℕ → List ℕ → Option (Option ℕ)
unfolding strstr_loop
strstr h [] = none
strstr h (b ∷ n) = if b == 0 then some (some 0) else strstr_loop h (b ∷ n)

unfoldable pub strcat : List ℕ → List ℕ → Option (List ℕ)
unfolding strcpy
strcat [] s = none
strcat (x ∷ d) s = if x == 0 then strcpy (x ∷ d) s else Option.map (λ d'. x ∷ d') (strcat d s)

-- Where the first `c` stands; the terminator is never found.
unfoldable pub strchr : List ℕ → ℕ → Option (Option ℕ)
strchr [] c = none
strchr (x ∷ s) c =
    if x == 0
    then some none
    else if x == c
    then some (some 0)
    else Option.map (Option.map suc) (strchr s c)
