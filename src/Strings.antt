-- ===== src/Strings.antt =====
-- user/lib/string.c, at addresses: the functions read and write one memory, from addresses to bytes,
-- so that objects can overlap. No object reaches over the end of the addresses. A loop that stops
-- at a byte of the memory has fuel, and `none` says that it is used up; Text has the same functions
-- on lists.
pub mod Held
pub mod Copied
pub mod Read
pub mod Scan
pub mod Tokens
mod Tests
use mathlib.Core.Option
use riscv_os.Prelude.{
  ℕ, zero, suc, ◌+◌, ◌%◌, ℤ, pos, sub_ℕ, Bool, true, false, not, ◌&&◌, Option, none, some, ◌==◌,
  if◌then◌else◌, ◌>>=◌,
}

abbrev pub Bytes : Type 0
Bytes = ℕ → ℕ

-- `*p = v`
unfoldable pub put : Bytes → ℕ → ℕ → Bytes
put m p v a = if a == p then v else m a

unfoldable pub strcmp : ℕ → Bytes → (s1 s2 : ℕ) → Option ℤ
strcmp zero m s1 s2 = none
strcmp (suc fuel) m s1 s2 =
    let rest = strcmp fuel m (s1 + 1) (s2 + 1) in
    if not (m s1 == 0) && m s1 == m s2 then rest else some (sub_ℕ (m s1) (m s2))

unfoldable pub strncmp : Bytes → (s1 s2 n : ℕ) → ℤ
strncmp m s1 s2 zero = pos 0
strncmp m s1 s2 (suc n) =
    let rest = strncmp m (s1 + 1) (s2 + 1) n in
    if not (m s1 == m s2) then sub_ℕ (m s1) (m s2) else if m s1 == 0 then pos 0 else rest

unfoldable pub strlen : ℕ → Bytes → ℕ → Option ℕ
strlen zero m str = none
strlen (suc fuel) m str =
    let rest = strlen fuel m (str + 1) in if m str == 0 then some 0 else Option.map suc rest

unfoldable pub strnlen : Bytes → (s maxlen : ℕ) → ℕ
strnlen m s zero = 0
strnlen m s (suc maxlen) = let rest = strnlen m (s + 1) maxlen in if m s == 0 then 0 else suc rest

unfoldable pub strcpy : ℕ → Bytes → (dst src : ℕ) → Option Bytes
unfolding put
strcpy zero m dst src = none
strcpy (suc fuel) m dst src =
    let rest = strcpy fuel (put m dst (m src)) (dst + 1) (src + 1) in
    if m src == 0 then some (put m dst 0) else rest

unfoldable pub memset : Bytes → (dest val n : ℕ) → Bytes
unfolding put
memset m dest val zero = m
memset m dest val (suc n) = memset (put m dest (val % 256)) (dest + 1) val n

-- Both loops; the second one writes zeros, as `memset` does.
unfoldable pub strncpy : Bytes → (dest src n : ℕ) → Bytes
unfolding put memset
strncpy m dest src zero = m
strncpy m dest src (suc n) =
    let rest = strncpy (put m dest (m src)) (dest + 1) (src + 1) n in
    if m src == 0 then memset m dest 0 (suc n) else rest

unfoldable pub memcpy : Bytes → (dest src n : ℕ) → Bytes
unfolding put
memcpy m dest src zero = m
memcpy m dest src (suc n) = memcpy (put m dest (m src)) (dest + 1) (src + 1) n

-- The inner loop of `strstr` and the test behind it.
unfoldable pub matches : ℕ → Bytes → (h n : ℕ) → Option Bool
matches zero m h n = none
matches (suc fuel) m h n =
    let rest = matches fuel m (h + 1) (n + 1) in
    if not (m h == 0) && (not (m n == 0) && m h == m n) then rest else some (m n == 0)

-- The outer loop, with the fuel of the inner one; the inner `none` is NULL.
unfoldable pub strstr_loop : ℕ → ℕ → Bytes → (haystack needle : ℕ) → Option (Option ℕ)
unfolding matches
strstr_loop zero inner m haystack needle = none
strstr_loop (suc fuel) inner m haystack needle =
    let rest = strstr_loop fuel inner m (haystack + 1) needle in
    if m haystack == 0
    then some none
    else (matches inner m haystack needle >>= λ found. if found then some (some haystack) else rest)

unfoldable pub strstr : ℕ → Bytes → (haystack needle : ℕ) → Option (Option ℕ)
unfolding strstr_loop
strstr fuel m haystack needle =
    if m needle == 0 then some (some haystack) else strstr_loop fuel fuel m haystack needle

unfoldable pub strcat : ℕ → Bytes → (dest src : ℕ) → Option Bytes
unfolding strcpy
strcat zero m dest src = none
strcat (suc fuel) m dest src =
    let rest = strcat fuel m (dest + 1) src in
    if m dest == 0 then strcpy (suc fuel) m dest src else rest

-- `c` is the `char` that is looked for.
unfoldable pub strchr : ℕ → Bytes → (s c : ℕ) → Option (Option ℕ)
strchr zero m s c = none
strchr (suc fuel) m s c =
    let rest = strchr fuel m (s + 1) c in
    if m s == 0 then some none else if m s == c then some (some s) else rest

abbrev pub not_null : Option ℕ → Bool
not_null none = false
not_null (some p) = true

-- The loop of `strtok` over leading delimiters, and the one over the token: where they leave `saved`.
unfoldable pub skip_delims : ℕ → ℕ → Bytes → (delim saved : ℕ) → Option ℕ
unfolding strchr
skip_delims zero inner m delim saved = none
skip_delims (suc fuel) inner m delim saved =
    let rest = skip_delims fuel inner m delim (saved + 1) in
    if m saved == 0
    then some saved
    else (strchr inner m delim (m saved) >>= λ p. if not_null p then rest else some saved)

unfoldable pub token_end : ℕ → ℕ → Bytes → (delim saved : ℕ) → Option ℕ
unfolding strchr
token_end zero inner m delim saved = none
token_end (suc fuel) inner m delim saved =
    let rest = token_end fuel inner m delim (saved + 1) in
    if m saved == 0
    then some saved
    else (strchr inner m delim (m saved) >>= λ p. if not_null p then some saved else rest)

-- What `strtok` leaves: its result, the memory, and `saved`; 0 is NULL.
pub record Token : Type 0 where
  pub token : ℕ
  pub memory : Bytes
  pub saved : ℕ

unfoldable pub strtok : ℕ → Bytes → (saved str delim : ℕ) → Option Token
unfolding skip_delims token_end put
strtok fuel m saved str delim =
    let start = if str == 0 then saved else str in
    if start == 0
    then some (record { token = 0; memory = m; saved = start })
    else (skip_delims fuel fuel m delim start >>= λ token.
        if m token == 0
        then some (record { token = 0; memory = m; saved = token })
        else (token_end fuel fuel m delim token >>= λ end.
            if not (m end == 0)
            then some (record { token = token; memory = put m end 0; saved = end + 1 })
            else some (record { token = token; memory = m; saved = 0 })))
