-- ===== src/Strings/Tokens.antt =====
-- user/lib/string.c: `strtok` in the memory does what `strtok` of Text does to the list of the
-- text's bytes.
use riscv_os.Prelude.{
  ℕ, zero, suc, ◌+◌, ◌≤◌, ◌<◌, ◌≡◌, ◌≢◌, refl, ap, subst, ◌∙◌, inl, inr, false, not, Option, none,
  some, List, [], ◌∷◌, ◌==◌, ne→==_false, if◌then◌else◌, ◌>>=◌, arith, length, get_elem?, drop, set,
  Bool-cases, Option-cases,
}
use riscv_os.Text
use riscv_os.Text.Token
use riscv_os.Text.Token.{Strtok, end_token, next_token, start_at}
use riscv_os.Strings.{Bytes, put, skip_delims, token_end, Token, strtok}
use riscv_os.Strings.Held.{Held, Outside, put-here, put-ne, put-Held}
use riscv_os.Strings.Copied.{SameOutside}
use riscv_os.Strings.Scan.{
  Sim, undefined, related, Sim-bind, Sim-some, skip_delims-Sim, token_end-Sim,
}

-- A position in the text at `a`, as a pointer
abbrev pub pointer : ℕ → Option ℕ → ℕ
pointer a none = 0
pointer a (some i) = a + i

-- A result for the list, and one in the memory where the text stands at `a`.
abbrev pub Agrees : Bytes → ℕ → ℕ → Option ℕ × Strtok → Token → Type 0
Agrees m a n (token, s) r =
    (r.token ≡ pointer a token)
    × ((r.saved ≡ pointer a s.saved) × (Held r.memory a s.text × SameOutside m r.memory a n))

Held-get_elem? :
    (m : Bytes) (a i c : ℕ) (t : List ℕ) → Held m a t → get_elem? t i ≡ some c → m (a + i) ≡ c
Held-get_elem? m a i c [] h e = absurd (ground (arith, e))
Held-get_elem? m a zero c (x ∷ t) (h, hs) e =
    let z : a + zero ≡ a = omega arith in let ex : x ≡ c = cc in ap m z ∙ h ∙ ex
Held-get_elem? m a (suc i) c (x ∷ t) (h, hs) e =
    let z : a + suc i ≡ a + 1 + i = omega arith in ap m z ∙ Held-get_elem? m (a + 1) i c t hs e

Held-drop : (m : Bytes) (a i : ℕ) (t : List ℕ) → Held m a t → Held m (a + i) (drop i t)
Held-drop m a zero t h = let z : a ≡ a + zero = omega arith in subst (λ p. Held m p t) z h
Held-drop m a (suc i) [] h = _
Held-drop m a (suc i) (x ∷ t) (e, h) =
    let z : a + 1 + i ≡ a + suc i = omega arith in
    subst (λ p. Held m p (drop i t)) z (Held-drop m (a + 1) i t h)

Held-set : (m : Bytes) (a i v : ℕ) (t : List ℕ) → Held m a t → Held (put m (a + i) v) a (set t i v)
Held-set m a i v [] h = _
Held-set m a zero v (x ∷ t) (e, h) =
    let z : a ≡ a + zero = omega arith in
    subst (λ p. Held (put m p v) a (v ∷ t)) z
      (put-here m a v, put-Held m a v (a + 1) t (inl (omega arith)) h)
Held-set m a (suc i) v (x ∷ t) (e, h) =
    let z : a + 1 + i ≡ a + suc i = omega arith in
    subst (λ p. Held (put m p v) a (x ∷ set t i v)) z
      (put-ne m (a + 1 + i) v a (λ n. absurd (omega (arith, n))) ∙ e, Held-set m (a + 1) i v t h)

get_elem?-lt : (t : List ℕ) (i c : ℕ) → get_elem? t i ≡ some c → i < length t
get_elem?-lt [] i c e = absurd (ground (arith, e))
get_elem?-lt (x ∷ t) zero c e = omega arith
get_elem?-lt (x ∷ t) (suc i) c e = omega (arith, get_elem?-lt t i c e)

length-drop : (i : ℕ) (t : List ℕ) → length (drop i t) ≤ length t
length-drop zero t = omega arith
length-drop (suc i) [] = omega arith
length-drop (suc i) (x ∷ t) = omega (arith, length-drop i t)

-- A byte of the text
elem-Sim :
    {C D : Type 0} {Q : C → D → Type 0} (m : Bytes) (a i : ℕ) (t : List ℕ) {f : ℕ → Option C}
    {p : Option D}
    → Held m a t
    → ((c : ℕ) → get_elem? t i ≡ some c → m (a + i) ≡ c → Sim Q (f c) p)
    → Sim Q (get_elem? t i >>= f) p
elem-Sim m a i t h k = elim (Option-cases (get_elem? t i)) [
  | inl e ↦ rw e undefined
  | inr (c, e) ↦ rw e (k c e (Held-get_elem? m a i c t h e))
]

Outside-ne : (b a n i : ℕ) → Outside b a n → i < n → b ≢ a + i
Outside-ne b a n i (inl lt) h e = omega (arith, lt, e)
Outside-ne b a n i (inr le) h e = omega (arith, le, h, e)

abbrev ended : Bytes → (token end : ℕ) → Option Token
ended m token end =
    if not (m end == 0)
    then some (record { token = token; memory = put m end 0; saved = end + 1 })
    else some (record { token = token; memory = m; saved = 0 })

end_token-Sim :
    (m : Bytes) (a q e : ℕ) (t : List ℕ)
    → Held m a t
    → Sim (Agrees m a (length t)) (end_token q e t) (ended m (a + q) (a + e))
unfolding end_token
end_token-Sim m a q e t h = elem-Sim m a e t h (λ c eg em. rw em (elim (Bool-cases (c == 0)) [
  | inl z ↦ rw z (related (refl, (refl, (h, λ b o. refl))))
  | inr z ↦ rw z (
      related (
        refl,
        (
          omega arith,
          (
            Held-set m a e 0 t h,
            λ b o. put-ne m (a + e) 0 b (Outside-ne b a (length t) e o (get_elem?-lt t e c eg)),
          ),
        ),
      ))
]))

-- One call, from a pointer into the text.
abbrev from_start : ℕ → Bytes → (start delim : ℕ) → Option Token
from_start fuel m start delim = skip_delims fuel fuel m delim start >>= λ token.
    if m token == 0
    then some (record { token = 0; memory = m; saved = token })
    else token_end fuel fuel m delim token >>= λ end. ended m token end

next_token-Sim :
    (fuel : ℕ) (m : Bytes) (a dl : ℕ) (delim : List ℕ) (p : ℕ) (t : List ℕ)
    → Held m a t
    → Held m dl delim
    → length t ≤ fuel
    → length delim ≤ fuel
    → Sim (Agrees m a (length t)) (next_token delim p t) (from_start fuel m (a + p) dl)
unfolding next_token
next_token-Sim fuel m a dl delim p t h hd lt ld =
    Sim-bind
      (skip_delims-Sim m dl delim fuel hd ld fuel (a + p) (drop p t) (Held-drop m a p t h)
        (omega (arith, length-drop p t)))
      (λ n q eq.
        let eq' : q ≡ a + (p + n) = omega arith in
        rw eq' (
          elem-Sim m a (p + n) t h (λ c eg em. rw em (elim (Bool-cases (c == 0)) [
            | inl z ↦ rw z (related (refl, (refl, (h, λ b o. refl))))
            | inr z ↦ rw z (
                Sim-bind
                  (token_end-Sim m dl delim fuel hd ld fuel (a + (p + n)) (drop (p + n) t)
                    (Held-drop m a (p + n) t h) (omega (arith, length-drop (p + n) t)))
                  (λ k e ek.
                    let ek' : e ≡ a + (p + n + k) = omega arith in
                    rw ek' (end_token-Sim m a (p + n) (p + n + k) t h)))
          ]))))

start_pointer :
    (a : ℕ) (str saved : Option ℕ)
    → a ≢ 0
    → (if pointer a str == 0 then pointer a saved else pointer a str)
      ≡ pointer a (start_at str saved)
start_pointer a none saved na = refl
start_pointer a (some p) saved na =
    let test : (a + p == 0) ≡ false = ne→==_false (a + p) 0 (λ e. na (omega (arith, e))) in
    rw test refl

start-Sim :
    (fuel : ℕ) (m : Bytes) (a dl : ℕ) (delim : List ℕ) (start : Option ℕ) (s : Strtok)
    → a ≢ 0
    → Held m a s.text
    → Held m dl delim
    → length s.text ≤ fuel
    → length delim ≤ fuel
    → Sim
        (Agrees m a (length s.text))
        (elim start [
          | none ↦ some (none, record s { saved = none })
          | some p ↦ next_token delim p s.text
        ])
        (if pointer a start == 0
          then some (record { token = 0; memory = m; saved = pointer a start })
          else from_start fuel m (pointer a start) dl)
start-Sim fuel m a dl delim none s na h hd lt ld = related (refl, (refl, (h, λ b o. refl)))
start-Sim fuel m a dl delim (some p) s na h hd lt ld =
    let test : (a + p == 0) ≡ false = ne→==_false (a + p) 0 (λ e. na (omega (arith, e))) in
    rw test (next_token-Sim fuel m a dl delim p s.text h hd lt ld)

strtok-Sim :
    (fuel : ℕ) (m : Bytes) (a dl : ℕ) (delim : List ℕ) (str : Option ℕ) (s : Strtok)
    → a ≢ 0
    → Held m a s.text
    → Held m dl delim
    → length s.text ≤ fuel
    → length delim ≤ fuel
    → Sim
        (Agrees m a (length s.text))
        (Text.Token.strtok str delim s)
        (strtok fuel m (pointer a s.saved) (pointer a str) dl)
unfolding strtok Text.Token.strtok
strtok-Sim fuel m a dl delim str s na h hd lt ld =
    rw (start_pointer a str s.saved na)
      (start-Sim fuel m a dl delim (start_at str s.saved) s na h hd lt ld)

-- A call of `strtok` on a text in the memory, not at the null pointer, does what the call on the
-- list of its bytes does: when the list's call has a result, and the fuel is at least the length of
-- the text and that of the delimiters, the call in the memory ends with the token and `saved` of the
-- list's call as pointers, the text that the list's call leaves stands in the memory, and no byte
-- outside the text changes.
pub strtok-Agrees :
    (fuel : ℕ) (m : Bytes) (a dl : ℕ) (delim : List ℕ) (str : Option ℕ) (s : Strtok)
    (result : Option ℕ × Strtok)
    → a ≢ 0
    → Held m a s.text
    → Held m dl delim
    → length s.text ≤ fuel
    → length delim ≤ fuel
    → Text.Token.strtok str delim s ≡ some result
    → (r : Token) × (strtok fuel m (pointer a s.saved) (pointer a str) dl ≡ some r)
      × Agrees m a (length s.text) result r
strtok-Agrees fuel m a dl delim str s result na h hd lt ld e =
    Sim-some (Text.Token.strtok str delim s) (strtok fuel m (pointer a s.saved) (pointer a str) dl)
      result (strtok-Sim fuel m a dl delim str s na h hd lt ld) e
