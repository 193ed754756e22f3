-- ===== src/Text/Clean.antt =====
-- apl_cleanstring: what it leaves of a string.
use vzgot.Base.{
  ℕ, zero, suc, ◌≡◌, refl, sym, ap, ◌∙◌, inl, inr, true, false, some, [], ◌∷◌, ◌++◌, arith,
  if◌then◌else◌, length, get_elem?, take, All, Bool-cases, append_assoc, append-nil, length-append,
  All-append,
}
use vzgot.Text.{Bytes, is_tail, is_blank, cut_tail, skip_blanks, clean_string}

-- the last byte is not one of those that end a line
abbrev pub EndsClean : Bytes → Type 0
EndsClean [] = Unit
EndsClean (c ∷ []) = is_tail c ≡ false
EndsClean (c ∷ d ∷ s) = EndsClean (d ∷ s)

-- the first byte is not blank
abbrev pub StartsClean : Bytes → Type 0
StartsClean [] = Unit
StartsClean (c ∷ s) = is_blank c ≡ false

-- `s` is `core` between leading blanks and trailing spaces and line ends
pub record Trims (s core : Bytes) : Type 0 where
  pub front : Bytes
  pub back : Bytes
  pub splits : s ≡ front ++ (core ++ back)
  pub front_blank : All (λ c. is_blank c ≡ true) front
  pub back_tail : All (λ c. is_tail c ≡ true) back
  pub starts : StartsClean core
  pub ends : EndsClean core

-- a string is empty, or has a last byte
last_cases : (s : Bytes) (n : ℕ) → length s ≡ suc n → (t : Bytes) × (c : ℕ) × (s ≡ t ++ c ∷ [])
last_cases [] n e = absurd (omega arith)
last_cases (c ∷ []) n e = ([], c, refl)
last_cases (c ∷ d ∷ s) zero e = absurd (omega arith)
last_cases (c ∷ d ∷ s) (suc n) e =
    let (t, x, q) = last_cases (d ∷ s) n (omega arith) in (c ∷ t, x, ap (◌∷◌ c) q)

get-last : (t : Bytes) (c n : ℕ) → length t ≡ n → get_elem? (t ++ c ∷ []) n ≡ some c
get-last [] c zero e = refl
get-last [] c (suc n) e = absurd (omega arith)
get-last (x ∷ t) c zero e = absurd (omega arith)
get-last (x ∷ t) c (suc n) e = get-last t c n (omega arith)

take-last : (t : Bytes) (c n : ℕ) → length t ≡ n → take n (t ++ c ∷ []) ≡ t
take-last [] c zero e = refl
take-last [] c (suc n) e = absurd (omega arith)
take-last (x ∷ t) c zero e = absurd (omega arith)
take-last (x ∷ t) c (suc n) e = ap (◌∷◌ x) (take-last t c n (omega arith))

EndsClean-last : (t : Bytes) (c : ℕ) → is_tail c ≡ false → EndsClean (t ++ c ∷ [])
EndsClean-last [] c h = h
EndsClean-last (x ∷ []) c h = h
EndsClean-last (x ∷ y ∷ t) c h = EndsClean-last (y ∷ t) c h

last_tail : (t : Bytes) (c : ℕ) → EndsClean (t ++ c ∷ []) → is_tail c ≡ false
last_tail [] c h = h
last_tail (x ∷ []) c h = h
last_tail (x ∷ y ∷ t) c h = last_tail (y ∷ t) c h

EndsClean-rest : (c : ℕ) (s : Bytes) → EndsClean (c ∷ s) → EndsClean s
EndsClean-rest c [] h = tt
EndsClean-rest c (d ∷ s) h = h

-- one round of the loop from the end
cut_tail-last :
    (t : Bytes) (c n : ℕ)
    → length t ≡ n
    → cut_tail (suc n) (t ++ c ∷ []) ≡ (if is_tail c then cut_tail n t else t ++ c ∷ [])
unfolding cut_tail
cut_tail-last t c n e = ground (arith, get-last t c n e, take-last t c n e)

cut_tail-splits :
    (n : ℕ) (s : Bytes)
    → length s ≡ n
    → (back : Bytes) × (s ≡ cut_tail n s ++ back)
      × All (λ c. is_tail c ≡ true) back
      × EndsClean (cut_tail n s)
cut_tail-splits zero [] e = unfold cut_tail in ([], refl, tt, tt)
cut_tail-splits zero (c ∷ s) e = absurd (omega arith)
cut_tail-splits (suc n) s e =
    let (t, c, q) = last_cases s n e in
    let m : length t ≡ n = omega (arith, length-append t (c ∷ []), ap length q) in
    rw q (
      rw (cut_tail-last t c n m) (elim (Bool-cases (is_tail c)) [
        | inl hit ↦
            let (back, split, tails, clean) = cut_tail-splits n t m in
            rw hit (
              back ++ c ∷ [],
              ap (λ z. z ++ c ∷ []) split ∙ append_assoc (cut_tail n t) back (c ∷ []),
              All-append _ back (c ∷ []) tails (hit, tt),
              clean,
            )
        | inr miss ↦ rw miss ([], sym (append-nil _), tt, EndsClean-last t c miss)
      ]))

skip_blanks-splits :
    (s : Bytes)
    → EndsClean s
    → (front : Bytes) × (s ≡ front ++ skip_blanks s)
      × All (λ c. is_blank c ≡ true) front
      × StartsClean (skip_blanks s)
      × EndsClean (skip_blanks s)
unfolding skip_blanks
skip_blanks-splits [] h = ([], refl, tt, tt, tt)
skip_blanks-splits (c ∷ s) h = elim (Bool-cases (is_blank c)) [
  | inl hit ↦
      let (front, split, blank, starts, ends) = skip_blanks-splits s (EndsClean-rest c s h) in
      rw hit (c ∷ front, ap (◌∷◌ c) split, (hit, blank), starts, ends)
  | inr miss ↦ rw miss ([], refl, tt, miss, h)
]

-- Whatever the string, apl_cleanstring takes away leading blanks and trailing spaces and line
-- ends, nothing else, and leaves a text that neither starts with a blank nor ends with a space
-- or a line end.
pub clean_string-Trims : (s : Bytes) → Trims s (clean_string s)
unfolding clean_string
clean_string-Trims s =
    let (back, split, tails, clean) = cut_tail-splits (length s) s refl in
    let (front, split', blank, starts, ends) = skip_blanks-splits (cut_tail (length s) s) clean in
    record {
      front = front;
      back = back;
      splits = split ∙ ap (λ z. z ++ back) split' ∙ append_assoc front _ back;
      front_blank = blank;
      back_tail = tails;
      starts = starts;
      ends = ends;
    }

cut_tail_fixed : (n : ℕ) (s : Bytes) → length s ≡ n → EndsClean s → cut_tail n s ≡ s
cut_tail_fixed zero s e h = unfold cut_tail in refl
cut_tail_fixed (suc n) s e h =
    let (t, c, q) = last_cases s n e in
    let m : length t ≡ n = omega (arith, length-append t (c ∷ []), ap length q) in
    rw q (rw (cut_tail-last t c n m, last_tail t c (rw q at h)))

skip_blanks_fixed : (s : Bytes) → StartsClean s → skip_blanks s ≡ s
unfolding skip_blanks
skip_blanks_fixed [] h = refl
skip_blanks_fixed (c ∷ s) h = rw h

-- Cleaning a cleaned string changes nothing.
pub clean_string_idempotent : (s : Bytes) → clean_string (clean_string s) ≡ clean_string s
clean_string_idempotent s =
    let t = clean_string-Trims s in
    let c = clean_string s in
    unfold clean_string in
    ap skip_blanks (cut_tail_fixed (length c) c refl t.ends) ∙ skip_blanks_fixed c t.starts
