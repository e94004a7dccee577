-- ===== src/Shell/Editor.antt =====
-- user/shell.c: the line editor, against a text that grows and shrinks at its end.
use riscv_os.Prelude.{
  ℕ, suc, ◌+◌, ◌-◌, ◌<◌, ◌≡◌, refl, sym, ap, ◌∙◌, Bool, true, false, ◌&&◌, Option, none, some, List,
  [], ◌∷◌, ◌++◌, append_assoc, ltb, if◌then◌else◌, ◌>>=◌, set, arith, ltb→lt, length, length-append,
  Bool-cases, inl, inr,
}
use riscv_os.Text.Calls.{set-append}
use riscv_os.Shell.{Line, edit, Entered, read_line, maxline, is_enter, is_backspace}

abbrev pub drop_last : List ℕ → List ℕ
drop_last [] = []
drop_last (x ∷ []) = []
drop_last (x ∷ (y ∷ t)) = x ∷ drop_last (y ∷ t)

-- A key at the end of a text of at most 127 characters: backspace takes the last one away if there is
-- one, any other key is added if there is room.
abbrev pub type_key : ℕ → List ℕ → List ℕ
type_key c t =
    if is_backspace c && ltb 0 (length t)
    then drop_last t
    else if ltb (length t) (maxline - 1)
    then t ++ (c ∷ [])
    else t

-- The text when ENTER is pressed, and the keys behind it.
abbrev pub type_line : List ℕ → List ℕ → Option (List ℕ × List ℕ)
type_line [] t = none
type_line (c ∷ cs) t = if is_enter c then some (t, cs) else type_line cs (type_key c t)

-- The array holds the text up to `pos`.
abbrev Shows : Line → List ℕ → Type 0
Shows l t =
    (l.pos ≡ length t)
    × (length t < maxline)
    × ((tail : List ℕ) × (l.line ≡ t ++ tail) × (length t + length tail ≡ maxline))

last_char : (x : ℕ) (t : List ℕ) → (y : ℕ) × (x ∷ t ≡ drop_last (x ∷ t) ++ (y ∷ []))
last_char x [] = (x, refl)
last_char x (y ∷ t) = let (z, e) = last_char y t in (z, ap (λ l. x ∷ l) e)

length-drop_last : (x : ℕ) (t : List ℕ) → length (drop_last (x ∷ t)) ≡ length t
length-drop_last x [] = refl
length-drop_last x (y ∷ t) = ap suc (length-drop_last y t)

erase-Shows :
    (l : Line) (x : ℕ) (t : List ℕ)
    → Shows l (x ∷ t)
    → Shows (record l { pos = l.pos - 1 }) (drop_last (x ∷ t))
erase-Shows l x t (ep, room, (tail, el, size)) =
    let (y, e) = last_char x t in
    let n = length-drop_last x t in
    (
      omega (arith, n),
      omega (arith, n),
      (
        y ∷ tail,
        el ∙ ap (λ k. k ++ tail) e ∙ append_assoc (drop_last (x ∷ t)) (y ∷ []) tail,
        omega (arith, n),
      ),
    )

add-Shows :
    (l : Line) (c : ℕ) (t : List ℕ)
    → length t < 127
    → Shows l t
    → Shows (record { line = set l.line l.pos c; pos = l.pos + 1 }) (t ++ (c ∷ []))
add-Shows l c t room (ep, small, ([], el, size)) = absurd (omega arith)
add-Shows l c t room (ep, small, (y ∷ tail, el, size)) =
    let n = length-append t (c ∷ []) in
    (
      omega (arith, n),
      omega (arith, n),
      (
        tail,
        ap (λ k. set k l.pos c) el
            ∙ ap (λ i. set (t ++ y ∷ tail) i c) ep
            ∙ set-append t tail y c
            ∙ sym (append_assoc t (c ∷ []) tail),
        omega (arith, n),
      ),
    )

erase_some :
    (l : Line) (b : Bool) (t : List ℕ)
    → (b && ltb 0 (length t)) ≡ true
    → Shows l t
    → Shows (record l { pos = l.pos - 1 }) (drop_last t)
erase_some l true [] e h = cc
erase_some l false [] e h = cc
erase_some l b (x ∷ t) e h = erase-Shows l x t h

edit-Shows : (c : ℕ) (l : Line) (t : List ℕ) → Shows l t → Shows (edit c l).1 (type_key c t)
unfolding edit
edit-Shows c l t h = elim (Bool-cases (is_backspace c && ltb 0 (length t))) [
  | inl e ↦
      let e' : (is_backspace c && ltb 0 l.pos) ≡ true =
        ap (λ k. is_backspace c && ltb 0 k) h.0 ∙ e in
      rw (edit, e', e) (erase_some l (is_backspace c) t e h)
  | inr e ↦
      let e' : (is_backspace c && ltb 0 l.pos) ≡ false =
        ap (λ k. is_backspace c && ltb 0 k) h.0 ∙ e in
      elim (Bool-cases (ltb (length t) 127)) [
        | inl room ↦
            let room' : ltb l.pos 127 ≡ true = ap (λ k. ltb k 127) h.0 ∙ room in
            rw (edit, e', e, room', room) (add-Shows l c t (ltb→lt (length t) 127 room) h)
        | inr full ↦
            let full' : ltb l.pos 127 ≡ false = ap (λ k. ltb k 127) h.0 ∙ full in
            rw (edit, e', e, full', full) h
      ]
]

-- The outcome of `read_line` for that of the text: it waits on, or it stops at the same key with the
-- text and a terminator at the front of a line that is not longer than before.
abbrev pub Reads : Option Entered → Option (List ℕ × List ℕ) → Type 0
Reads e none = e ≡ none
Reads e (some (t, cs)) =
    (r : Entered) × (e ≡ some r)
    × (r.input ≡ cs)
    × ((tail : List ℕ) × (r.line ≡ t ++ 0 ∷ tail) × (length r.line ≡ maxline))

-- A terminator at `pos`
end_line :
    (l : Line) (t cs : List ℕ) (out : List ℕ)
    → Shows l t
    → Reads (some (record { line = set l.line l.pos 0; input = cs; output = out })) (some (t, cs))
end_line l t cs out (ep, small, ([], el, size)) = absurd (omega arith)
end_line l t cs out (ep, small, (y ∷ tail, el, size)) =
    let e : set l.line l.pos 0 ≡ t ++ 0 ∷ tail =
      ap (λ k. set k l.pos 0) el ∙ ap (λ i. set (t ++ y ∷ tail) i 0) ep ∙ set-append t tail y 0 in
    let n = length-append t (0 ∷ tail) in
    (_, refl, refl, (tail, e, ap length e ∙ (omega (arith, n))))

-- More output in front changes neither
echo-Reads :
    (out : List ℕ) (o : Option Entered) (t : Option (List ℕ × List ℕ))
    → Reads o t
    → Reads (o >>= λ r. some (record r { output = out ++ r.output })) t
echo-Reads out o none h = rw h
echo-Reads out o (some (t, cs)) (r, e, ei, tail) = rw e (_, refl, ei, tail)

reads :
    (keys : List ℕ) (l : Line) (t : List ℕ)
    → Shows l t
    → Reads (read_line keys l) (type_line keys t)
unfolding read_line
reads [] l t h = refl
reads (c ∷ cs) l t h = elim (Bool-cases (is_enter c)) [
  | inl e ↦ rw (read_line, e) (end_line l t cs (c ∷ 10 ∷ []) h)
  | inr e ↦
      rw (read_line, e)
        (echo-Reads (c ∷ (edit c l).0) (read_line cs (edit c l).1) (type_line cs (type_key c t))
          (reads cs (edit c l).1 (type_key c t) (edit-Shows c l t h)))
]

-- The shell's loop over the keys of a line, from the empty line in an array of 128 bytes that may
-- hold anything, does what the same keys do to a text of at most 127 characters (`type_line`): it
-- waits on if ENTER is not among them, and stops at the same key else, with the text and its
-- terminator at the front of the array, which has kept its length.
pub read_line-Reads :
    (keys line : List ℕ)
    → length line ≡ maxline
    → Reads (read_line keys (record { line = line; pos = 0 })) (type_line keys [])
read_line-Reads keys line size = reads keys _ [] (refl, omega arith, (line, refl, omega arith))
