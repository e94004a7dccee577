-- ===== src/Text/Words.antt =====
-- kernel/string.c and user/lib/string.c: the calls of `strtok` on a text, against the words of the
-- text by recursion.
use mathlib.Core.Option
use riscv_os.Prelude.{
  ℕ, zero, suc, ◌+◌, ◌≡◌, refl, sym, ap, subst, ◌∙◌, ◌≢◌, ◌⊎◌, true, false, some, List, [], ◌∷◌,
  ◌++◌, ◌==◌, if◌then◌else◌, arith, length, Bool-cases, inl, inr, ==→eq, ne→==_false, ==_false→ne,
  replicate,
}
use riscv_os.Text.{strchr}
use riscv_os.Text.Compare.{IsText}
use riscv_os.Text.Token.{is_delim, skip_delims, token_end}

abbrev pub space : ℕ
space = 32

abbrev pub spaces : List ℕ
spaces = 32 ∷ 0 ∷ []

-- A character in front of the words of a text: it begins a word, or continues the first one.
unfoldable pub join : ℕ → List ℕ → List (List ℕ) → List (List ℕ)
join c [] ws = (c ∷ []) ∷ ws
join c (d ∷ t) [] = (c ∷ []) ∷ []
join c (d ∷ t) (w ∷ ws) = if d == space then (c ∷ []) ∷ w ∷ ws else (c ∷ w) ∷ ws

-- The words of a text, split at spaces.
unfoldable pub words : List ℕ → List (List ℕ)
unfolding join
words [] = []
words (c ∷ t) = if c == space then words t else join c t (words t)

-- The string at the front of an object.
abbrev pub string_at : List ℕ → List ℕ
string_at [] = []
string_at (c ∷ s) = if c == 0 then [] else c ∷ string_at s

-- No character is a space or a terminator.
abbrev pub IsWord : List ℕ → Type 0
IsWord [] = Unit {0}
IsWord (c ∷ w) = (c ≢ 0) × (c ≢ space) × IsWord w

-- A text begins with spaces, and behind them it ends, or a word comes that ends with the text or with
-- another space.
pub data Front (t : List ℕ) : Type 0 where
  blank : (n : ℕ) → t ≡ replicate n space → Front t
  last : (n c : ℕ) (w : List ℕ) → IsWord (c ∷ w) → t ≡ replicate n space ++ (c ∷ w) → Front t
  more :
      (n c : ℕ) (w t' : List ℕ)
      → IsWord (c ∷ w)
      → IsText t'
      → t ≡ replicate n space ++ ((c ∷ w) ++ space ∷ t')
      → Front t

-- A character that is no space in front of a text.
cons_front : (c : ℕ) (t : List ℕ) → c ≢ 0 → c ≢ space → IsText t → Front t → Front (c ∷ t)
cons_front c t nz ns text (blank zero e) = last 0 c [] (nz, ns, tt) (ap (λ l. c ∷ l) e)
cons_front c t nz ns text (blank (suc n) e) =
    more 0 c [] (replicate n space) (nz, ns, tt) ((subst IsText e text).1) (ap (λ l. c ∷ l) e)
cons_front c t nz ns text (last zero d w iw e) = last 0 c (d ∷ w) (nz, ns, iw) (ap (λ l. c ∷ l) e)
cons_front c t nz ns text (last (suc n) d w iw e) =
    more 0 c [] (replicate n space ++ (d ∷ w)) (nz, ns, tt) ((subst IsText e text).1)
      (ap (λ l. c ∷ l) e)
cons_front c t nz ns text (more zero d w t' iw it e) =
    more 0 c (d ∷ w) t' (nz, ns, iw) it (ap (λ l. c ∷ l) e)
cons_front c t nz ns text (more (suc n) d w t' iw it e) =
    more 0 c [] (replicate n space ++ ((d ∷ w) ++ space ∷ t')) (nz, ns, tt)
      ((subst IsText e text).1) (ap (λ l. c ∷ l) e)

space_front : (t : List ℕ) → Front t → Front (space ∷ t)
space_front t (blank n e) = blank (suc n) (ap (λ l. space ∷ l) e)
space_front t (last n c w iw e) = last (suc n) c w iw (ap (λ l. space ∷ l) e)
space_front t (more n c w t' iw it e) = more (suc n) c w t' iw it (ap (λ l. space ∷ l) e)

pub front : (t : List ℕ) → IsText t → Front t
front [] h = blank 0 refl
front (c ∷ t) h = elim (Bool-cases (c == space)) [
  | inl e ↦ subst (λ x. Front (x ∷ t)) (sym (==→eq c space e)) (space_front t (front t h.1))
  | inr e ↦ cons_front c t h.0 (==_false→ne c space e) h.1 (front t h.1)
]

pub words-replicate : (n : ℕ) (t : List ℕ) → words (replicate n space ++ t) ≡ words t
unfolding words
words-replicate zero t = refl
words-replicate (suc n) t = words-replicate n t

pub words_last : (c : ℕ) (w : List ℕ) → IsWord (c ∷ w) → words (c ∷ w) ≡ (c ∷ w) ∷ []
unfolding words join
words_last c [] h = rw (ne→==_false c space h.1)
words_last c (d ∷ w) h = rw (ne→==_false c space h.1, words_last d w h.2, ne→==_false d space h.2.1)

pub words_more :
    (c : ℕ) (w t : List ℕ) → IsWord (c ∷ w) → words ((c ∷ w) ++ space ∷ t) ≡ (c ∷ w) ∷ words t
unfolding words join
words_more c [] t h = rw (ne→==_false c space h.1) (first (words t))
  where
    first : (ws : List (List ℕ)) → join c (space ∷ t) ws ≡ (c ∷ []) ∷ ws
    first [] = refl
    first (v ∷ ws) = refl
words_more c (d ∷ w) t h =
    rw (ne→==_false c space h.1, words_more d w t h.2, ne→==_false d space h.2.1)

-- The tests of the two loops.
space_delim : is_delim spaces space ≡ some true
unfolding is_delim strchr
space_delim = refl

is_delim_other : (c : ℕ) → c ≢ space → is_delim spaces c ≡ some false
unfolding is_delim strchr
is_delim_other c h =
    let t : (space == c) ≡ false = ne→==_false space c (λ e. h (sym e)) in rw (is_delim, strchr, t)

pub skip_delims-replicate :
    (n : ℕ) (t : List ℕ) (k : ℕ)
    → skip_delims spaces t ≡ some k
    → skip_delims spaces (replicate n space ++ t) ≡ some (n + k)
unfolding skip_delims is_delim strchr
skip_delims-replicate zero t k h = h ∙ ap some (omega arith)
skip_delims-replicate (suc n) t k h =
    ap (Option.map suc) (skip_delims-replicate n t k h) ∙ ap some (omega arith)

pub skip_delims_word :
    (c : ℕ) (t : List ℕ) → c ≢ 0 → c ≢ space → skip_delims spaces (c ∷ t) ≡ some 0
unfolding skip_delims
skip_delims_word c t nz ns = rw (ne→==_false c 0 nz, is_delim_other c ns)

-- What ends a word: a space, or the terminator.
abbrev pub IsEnd : ℕ → Type 0
IsEnd e = (e ≡ 0) ⊎ (e ≡ space)

pub token_end-length :
    (w : List ℕ) (e : ℕ) (t : List ℕ)
    → IsWord w
    → IsEnd e
    → token_end spaces (w ++ e ∷ t) ≡ some (length w)
unfolding token_end
token_end-length [] e t h (inl ee) = rw ee
token_end-length [] e t h (inr ee) = rw ee
token_end-length (c ∷ w) e t h he =
    rw (ne→==_false c 0 h.0, is_delim_other c h.1, token_end-length w e t h.2 he)
