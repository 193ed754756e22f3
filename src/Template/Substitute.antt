-- ===== src/Template/Substitute.antt =====
-- A whole line of a template with several variables.
use vzgot.Base.{
  ℕ, zero, suc, ◌+◌, ◌-◌, ◌≤◌, ◌≡◌, ◌≢◌, refl, ap, subst, ◌∙◌, true, Option, none, some, List, [],
  ◌∷◌, ◌++◌, append_assoc, length, take, drop, All, All-append, arith,
}
use mathlib.Core.Option
use vzgot.Text.{Bytes, c_str}
use vzgot.Text.Scan.{All-map}
use vzgot.Template.Buffer.{to_dollar, work_of}
use vzgot.Template.Edit.{IsString, c_str-append}
use vzgot.Template.Update.{key_of, IsShown, adjusting-Holds}
use vzgot.Template.{Var, Value, glue, go_on, at_dollar, adjusting, scan_work, show_line}

-- text without a `$`
abbrev pub IsText : Bytes → Type 0
IsText = All (λ c. (c ≢ 0) × (c ≢ b'$'))

-- a variable of a line, the text before it, and its value
pub record Part : Type 0 where
  pub before : Bytes
  pub name : Bytes
  pub shown : Bytes

-- the line as the template has it
abbrev pub line_with : List Part → Bytes → Bytes
line_with [] tail = tail
line_with (p ∷ parts) tail = p.before ++ (key_of p.name ++ line_with parts tail)

-- the line with the values in place of the keys
abbrev pub filled : List Part → Bytes → Bytes
filled [] tail = tail
filled (p ∷ parts) tail = p.before ++ (p.shown ++ filled parts tail)

take_all : (n : ℕ) (s : Bytes) → length s ≤ n → take n s ≡ s
take_all zero [] h = refl
take_all zero (x ∷ s) h = absurd (omega arith)
take_all (suc n) [] h = refl
take_all (suc n) (x ∷ s) h = ap (λ r. x ∷ r) (take_all n s (omega arith))

to_dollar-none : (s stale : Bytes) → IsText s → to_dollar (s ++ 0 ∷ stale) ≡ some (s, none)
unfolding to_dollar
to_dollar-none [] stale h = refl
to_dollar-none (c ∷ s) stale h = ground (arith, to_dollar-none s stale h.1)

to_dollar-some :
    (s buf : Bytes) → IsText s → to_dollar (s ++ b'$' ∷ buf) ≡ some (s, some (b'$' ∷ buf))
unfolding to_dollar
to_dollar-some [] buf h = refl
to_dollar-some (c ∷ s) buf h = ground (arith, to_dollar-some s buf h.1)

module _ (value : Value) (vars : List Var) where
  -- a value no longer than its key, in which no other key begins
  pub record IsPart (p : Part) : Type 0 where
    pub is_shown : IsShown value vars p.name p.shown
    pub fits : length p.shown ≤ length (key_of p.name)
    pub plain : IsText p.shown
    pub text : IsText p.before

  line_with-IsString :
      (parts : List Part) (tail : Bytes)
      → All IsPart parts
      → IsText tail
      → IsString (line_with parts tail)
  line_with-IsString [] tail h ht = All-map tail (λ x q. q.0) ht
  line_with-IsString (p ∷ parts) tail h ht =
      All-append _ p.before _ (All-map p.before (λ x q. q.0) h.0.text) (
        omega arith,
        All-append _ (p.name ++ b':' ∷ []) _
            (All-append _ p.name _ (All-map p.name (λ x q. q.0) h.0.is_shown.in_name)
              (omega arith, tt))
            (line_with-IsString parts tail h.1 ht),
      )

  at_dollar_step :
      (again : Bytes → Option Bytes) (s key buf next : Bytes)
      → IsText s
      → adjusting value vars (b'$' ∷ key) ≡ some (true, next)
      → at_dollar value again vars buf (to_dollar (s ++ b'$' ∷ key)) ≡ glue s (again next)
  unfolding at_dollar
  at_dollar_step again s key buf next h e =
      ap (at_dollar value again vars buf) (to_dollar-some s key h)
      ∙ ap (λ r. glue s (go_on again r)) e

  at_dollar_end :
      (again : Bytes → Option Bytes) (s stale buf : Bytes)
      → IsText s
      → at_dollar value again vars buf (to_dollar (s ++ 0 ∷ stale)) ≡ some buf
  unfolding at_dollar
  at_dollar_end again s stale buf h = ap (at_dollar value again vars buf) (to_dollar-none s stale h)

  -- the loop, with text already shown before the rest of the line
  scan_work-filled :
      (n : ℕ) (parts : List Part) (pre tail stale : Bytes)
      → length parts ≤ n
      → All IsPart parts
      → IsText pre
      → IsText tail
      → (left : Bytes) × (scan_work value n vars ((pre ++ line_with parts tail) ++ 0 ∷ stale)
          ≡ some ((pre ++ filled parts tail) ++ 0 ∷ left))
  unfolding scan_work
  scan_work-filled zero [] pre tail stale le h hp ht = (stale, refl)
  scan_work-filled zero (p ∷ parts) pre tail stale le h hp ht = absurd (omega arith)
  scan_work-filled (suc n) [] pre tail stale le h hp ht =
      (stale, at_dollar_end _ (pre ++ tail) stale _ (All-append _ pre tail hp ht))
  scan_work-filled (suc n) (p ∷ parts) pre tail stale le h hp ht =
      let rest = line_with parts tail in
      let (left, e, l) =
        adjusting-Holds value vars p.name p.shown rest stale h.0.is_shown
          (line_with-IsString parts tail h.1 ht) (omega (arith, h.0.fits)) in
      let (end, f) = scan_work-filled n parts p.shown tail left (omega arith) h.1 h.0.plain ht in
      let again = λ (b : Bytes). scan_work value n vars b in
      let key : Bytes = (p.name ++ b':' ∷ []) ++ (rest ++ 0 ∷ stale) in
      let buf : Bytes = (pre ++ line_with (p ∷ parts) tail) ++ 0 ∷ stale in
      let shape : buf ≡ (pre ++ p.before) ++ b'$' ∷ key = simp append_assoc in
      let gone : length p.shown - length (key_of p.name) ≡ 0 = omega (arith, h.0.fits) in
      let step =
        at_dollar_step again (pre ++ p.before) key buf _ (All-append _ pre p.before hp h.0.text) (
          subst
            (λ k.
              adjusting value vars (b'$' ∷ key) ≡ some (true, (p.shown ++ drop k rest) ++ 0 ∷ left))
            gone e) in
      (
        end,
        ap (λ z. at_dollar value again vars buf (to_dollar z)) shape
            ∙ step
            ∙ ap (glue (pre ++ p.before)) f
            ∙ ap some (simp append_assoc),
      )

  filled-IsString :
      (parts : List Part) (tail : Bytes)
      → All IsPart parts
      → IsText tail
      → IsString (filled parts tail)
  filled-IsString [] tail h ht = All-map tail (λ x q. q.0) ht
  filled-IsString (p ∷ parts) tail h ht =
      All-append _ p.before _ (All-map p.before (λ x q. q.0) h.0.text) (
        All-append _ p.shown _ (All-map p.shown (λ x q. q.0) h.0.plain)
          (filled-IsString parts tail h.1 ht))

  -- A line of at most 399 bytes with at most ten keys, each of a declared variable whose value is
  -- no longer than its key and has no `$`, is shown with exactly these values in place of the
  -- keys, whatever the buffer held before.
  pub show_line-filled :
      (old : Bytes → Bytes) (parts : List Part) (tail : Bytes)
      → length parts ≤ 10
      → length (line_with parts tail) ≤ 399
      → All IsPart parts
      → IsText tail
      → show_line value old vars (line_with parts tail) ≡ some (filled parts tail)
  unfolding show_line work_of
  show_line-filled old parts tail le fits h ht =
      let line = line_with parts tail in
      let (left, e) =
        scan_work-filled 10 parts [] tail (drop (length line + 1) (old line)) le h tt ht in
      ap (λ s. Option.map c_str (scan_work value 10 vars (s ++ 0 ∷ drop (length s + 1) (old line))))
        (take_all 399 line fits)
      ∙ ap (Option.map c_str) e
      ∙ ap some (c_str-append (filled parts tail) left (filled-IsString parts tail h ht))
