-- ===== src/Cpu/Count.antt =====
-- What sys_get_numcpu counts.
use vzgot.Base.{
  ℕ, ◌+◌, ◌-◌, ◌%◌, ◌≤◌, ◌<◌, ◌≡◌, ◌≢◌, refl, sym, ap, subst, ◌∙◌, Bool, true, false, Option, some,
  List, [], ◌∷◌, ◌++◌, ◌==◌, All, All-append, append_assoc, append-nil, inl, inr, ◌⊎◌, arith,
}
use vzgot.Text.{Bytes}
use vzgot.Cpu.{is_digit, spans, has_dash, widen, add_piece, count_from, get_numcpu}

-- the kernel's list format: single numbers and ranges
pub data Range : Type 0 where
  one : ℕ → Range
  span : ℕ → ℕ → Range

abbrev pub size : Range → ℕ
size (one n) = 1
size (span a b) = (b - a) + 1

abbrev pub Ordered : Range → Type 0
Ordered (one n) = Unit
Ordered (span a b) = a ≤ b

abbrev pub total : List Range → ℕ
total [] = 0
total (r ∷ rs) = size r + total rs

-- a line feed may stand behind the list
abbrev pub IsEnd : Bytes → Type 0
IsEnd tail = (tail ≡ []) ⊎ (tail ≡ b'\n' ∷ [])

abbrev pub starts_digit : Bytes → Bool
starts_digit [] = false
starts_digit (c ∷ s) = is_digit c

abbrev Plain : Bytes → Type 0
Plain = All (λ c. c ≢ b',')

has_dash-append :
    (s tail : Bytes) → All (λ c. is_digit c ≡ true) s → has_dash (s ++ tail) ≡ has_dash tail
unfolding has_dash
has_dash-append [] tail h = refl
has_dash-append (c ∷ s) tail (h, hs) =
    let e : (c == b'-') ≡ false = ground arith in rw e (has_dash-append s tail hs)

Plain-digits : (s : Bytes) → All (λ c. is_digit c ≡ true) s → Plain s
Plain-digits [] h = tt
Plain-digits (c ∷ s) (h, hs) = ((λ e. ground arith), Plain-digits s hs)

Plain-IsEnd : (tail : Bytes) → IsEnd tail → Plain tail
Plain-IsEnd [] h = tt
Plain-IsEnd (c ∷ s) (inl e) = absurd (cc)
Plain-IsEnd (c ∷ s) (inr e) = subst Plain (sym e) ((λ e'. ground arith), tt)

has_dash-IsEnd : (tail : Bytes) → IsEnd tail → has_dash tail ≡ false
unfolding has_dash
has_dash-IsEnd tail (inl e) = rw e refl
has_dash-IsEnd tail (inr e) = rw e refl

spans-append : (s tail : Bytes) → s ≢ [] → All (λ c. is_digit c ≡ true) s → spans (s ++ tail) ≡ true
spans-append [] tail ne h = absurd (ne refl)
spans-append (c ∷ s) tail ne (h, hs) = rw h refl

widen-size : (nbr a b : ℕ) → a ≤ b → (widen nbr (a, b) + 1) % 65536 ≡ (nbr + ((b - a) + 1)) % 65536
widen-size nbr a b h = omega arith

append-some : (s t : Bytes) → s ≢ [] → s ++ t ≢ []
append-some [] t h e = h refl
append-some (c ∷ s) t h e = cc

size-positive : (r : Range) → 0 < size r
size-positive (one n) = omega arith
size-positive (span a b) = omega arith

-- how the list is written
module _ (digits : ℕ → Bytes) where
  abbrev pub text : Range → Bytes → Bytes
  text (one n) tail = digits n ++ tail
  text (span a b) tail = digits a ++ b'-' ∷ (digits b ++ tail)

  abbrev pub render : Range → List Range → Bytes → Bytes
  render r [] tail = text r tail
  render r (s ∷ rs) tail = text r (b',' ∷ render s rs tail)

-- sscanf, and how numbers are written
module _ (scan : Bytes → Option (ℕ × ℕ)) (digits : ℕ → Bytes)
    (digits-digit : (n : ℕ) → All (λ c. is_digit c ≡ true) (digits n))
    (digits-some : (n : ℕ) → digits n ≢ [])
    (scans : (a b : ℕ) (tail : Bytes)
      → starts_digit tail ≡ false
      → scan (digits a ++ b'-' ∷ (digits b ++ tail)) ≡ some (a, b)) where
  add_piece-text :
      (r : Range) (tail : Bytes) (nbr : ℕ)
      → Ordered r
      → IsEnd tail
      → add_piece scan (text digits r tail) nbr ≡ (nbr + size r) % 65536
  unfolding add_piece
  add_piece-text (one n) tail nbr o h =
      let d = has_dash-append (digits n) tail (digits-digit n) ∙ has_dash-IsEnd tail h in
      rw (d, spans-append (digits n) tail (digits-some n) (digits-digit n)) refl
  add_piece-text (span a b) tail nbr o h =
      let after = b'-' ∷ (digits b ++ tail) in
      let dash : has_dash after ≡ true = unfold has_dash in refl in
      let d = has_dash-append (digits a) after (digits-digit a) ∙ dash in
      let ends : starts_digit tail ≡ false = elim h [ inl e ↦ rw e refl | inr e ↦ rw e refl ] in
      rw (d, spans-append (digits a) after (digits-some a) (digits-digit a), scans a b tail ends)
        (widen-size nbr a b o)

  count_from-piece :
      (check piece s : Bytes) (nbr : ℕ)
      → Plain piece
      → count_from scan check (piece ++ b',' ∷ s) nbr
        ≡ count_from scan [] s (add_piece scan (check ++ piece) nbr)
  unfolding count_from
  count_from-piece check [] s nbr h = rw append-nil refl
  count_from-piece check (c ∷ piece) s nbr (h, hs) =
      let e : (c == b',') ≡ false = ground arith in
      rw e (
        count_from-piece (check ++ c ∷ []) piece s nbr hs
        ∙ ap (λ x. count_from scan [] s (add_piece scan x nbr)) (append_assoc check (c ∷ []) piece))

  count_from-last :
      (check piece : Bytes) (nbr : ℕ)
      → Plain piece
      → count_from scan check piece nbr ≡ add_piece scan (check ++ piece) nbr
  unfolding count_from
  count_from-last check [] nbr h = rw append-nil refl
  count_from-last check (c ∷ piece) nbr (h, hs) =
      let e : (c == b',') ≡ false = ground arith in
      rw e (
        count_from-last (check ++ c ∷ []) piece nbr hs
        ∙ ap (λ x. add_piece scan x nbr) (append_assoc check (c ∷ []) piece))

  Plain-text : (r : Range) (tail : Bytes) → Plain tail → Plain (text digits r tail)
  Plain-text (one n) tail h =
      All-append _ (digits n) tail (Plain-digits (digits n) (digits-digit n)) h
  Plain-text (span a b) tail h =
      All-append _ (digits a) (b'-' ∷ (digits b ++ tail)) (Plain-digits (digits a) (digits-digit a))
        (
          (λ e. ground arith),
          All-append _ (digits b) tail (Plain-digits (digits b) (digits-digit b)) h,
        )

  text-append : (r : Range) (tail : Bytes) → text digits r tail ≡ text digits r [] ++ tail
  text-append (one n) tail = sym (append_assoc (digits n) [] tail)
  text-append (span a b) tail = sym (
      append_assoc (digits a) (b'-' ∷ (digits b ++ [])) tail
      ∙ ap (λ x. digits a ++ b'-' ∷ x) (append_assoc (digits b) [] tail))

  count_from-render :
      (r : Range) (rs : List Range) (tail : Bytes) (nbr : ℕ)
      → All Ordered (r ∷ rs)
      → IsEnd tail
      → nbr < 65536
      → count_from scan [] (render digits r rs tail) nbr ≡ (nbr + total (r ∷ rs)) % 65536
  count_from-render r [] tail nbr (o, os) h small =
      let e =
        count_from-last [] (text digits r tail) nbr (Plain-text r tail (Plain-IsEnd tail h)) in
      let p = add_piece-text r tail nbr o h in e ∙ p ∙ omega arith
  count_from-render r (s ∷ rs) tail nbr (o, os) h small =
      let rest = render digits s rs tail in
      let split = ap (λ x. count_from scan [] x nbr) (text-append r (b',' ∷ rest)) in
      let e = count_from-piece [] (text digits r []) rest nbr (Plain-text r [] tt) in
      let p = ap (count_from scan [] rest) (add_piece-text r [] nbr o (inl refl)) in
      let ih = count_from-render s rs tail ((nbr + size r) % 65536) os h (omega arith) in
      split ∙ e ∙ p ∙ ih ∙ omega arith

  text-some : (r : Range) (tail : Bytes) → text digits r tail ≢ []
  text-some (one n) tail = append-some (digits n) tail (digits-some n)
  text-some (span a b) tail = append-some (digits a) (b'-' ∷ (digits b ++ tail)) (digits-some a)

  render-some : (r : Range) (rs : List Range) (tail : Bytes) → render digits r rs tail ≢ []
  render-some r [] tail = text-some r tail
  render-some r (s ∷ rs) tail = text-some r (b',' ∷ render digits s rs tail)

  get_numcpu-count :
      (conf n : ℕ) (line : Bytes)
      → line ≢ []
      → 0 < n
      → count_from scan [] line 0 ≡ n
      → get_numcpu scan conf (some line) ≡ n
  unfolding get_numcpu
  get_numcpu-count conf n [] ne big e = absurd (ne refl)
  get_numcpu-count conf n (c ∷ line) ne big e =
      let some_ : (n == 0) ≡ false = ground arith in rw (get_numcpu, e, some_) refl

  -- On a line of single numbers and of ranges, not empty, with a line feed behind it or not, in
  -- which each range goes upwards, sys_get_numcpu gives the number of processors that they list,
  -- if it is below 65536. Numbers are written with one digit at least, and sscanf reads two of
  -- them with a `-` in between.
  pub get_numcpu-total :
      (conf : ℕ) (r : Range) (rs : List Range) (tail : Bytes)
      → All Ordered (r ∷ rs)
      → IsEnd tail
      → total (r ∷ rs) < 65536
      → get_numcpu scan conf (some (render digits r rs tail)) ≡ total (r ∷ rs)
  get_numcpu-total conf r rs tail o h small =
      let e = count_from-render r rs tail 0 o h (omega arith) in
      let big = size-positive r in
      get_numcpu-count conf (total (r ∷ rs)) (render digits r rs tail) (render-some r rs tail)
        (omega arith) (e ∙ omega arith)
