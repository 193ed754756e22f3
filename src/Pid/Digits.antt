-- ===== src/Pid/Digits.antt =====
-- That a printed number is read back.
use vzgot.Base.{
  ℕ, zero, suc, ◌+◌, ◌-◌, ◌*◌, ◌/◌, ◌%◌, ◌^◌, ◌≤◌, ◌<◌, ◌≡◌, refl, sym, ap, ◌∙◌, true, false, some,
  ◌∷◌, ◌++◌, arith, ltb, length, Bool-cases, inl, inr,
}
use native.Mathlib.Nat.{pow-succ'}
use vzgot.Text.{Bytes, is_space, skip_spaces}
use vzgot.Pid.{to_digits, is_digit, more_digits, number_at, scan_number}

digit_step :
    (v d : ℕ) (s : Bytes) → d < 10 → more_digits v ((b'0' + d) ∷ s) ≡ more_digits (v * 10 + d) s
unfolding more_digits
digit_step v d s h =
    let digit : is_digit (b'0' + d) ≡ true = ground arith in
    let value : v * 10 + (b'0' + d - b'0') ≡ v * 10 + d = omega arith in rw (digit, value) refl

-- reading the digits written gives the number on
more_digits-to_digits :
    (fuel n : ℕ) (s : Bytes) → n < 10 ^ fuel → more_digits 0 (to_digits fuel n s) ≡ more_digits n s
unfolding to_digits
more_digits-to_digits zero n s h = ap (λ k. more_digits k s) (omega arith)
more_digits-to_digits (suc fuel) n s h = elim (Bool-cases (ltb n 10)) [
  | inl small ↦ rw small (digit_step 0 n s (ground arith) ∙ ap (λ k. more_digits k s) (omega arith))
  | inr large ↦
      let less : n / 10 < 10 ^ fuel = omega (arith, pow-succ' 10 fuel) in
      let whole : n / 10 * 10 + n % 10 ≡ n = omega arith in
      rw large (
        more_digits-to_digits fuel (n / 10) ((b'0' + n % 10) ∷ s) less
        ∙ digit_step (n / 10) (n % 10) s (omega arith)
        ∙ ap (λ k. more_digits k s) whole)
]

-- what is written begins with a digit
pub to_digits-digit :
    (fuel n : ℕ) (s : Bytes)
    → (d : ℕ) × (r : Bytes) × (to_digits (suc fuel) n s ≡ (b'0' + d) ∷ r) × (d < 10)
unfolding to_digits
to_digits-digit zero n s = elim (Bool-cases (ltb n 10)) [
  | inl small ↦ rw small (n, s, refl, ground arith)
  | inr large ↦ rw large (n % 10, s, refl, omega arith)
]
to_digits-digit (suc fuel) n s = elim (Bool-cases (ltb n 10)) [
  | inl small ↦ rw small (n, s, refl, ground arith)
  | inr large ↦ rw large (to_digits-digit fuel (n / 10) ((b'0' + n % 10) ∷ s))
]

pub length-to_digits : (fuel n : ℕ) (s : Bytes) → length (to_digits fuel n s) ≤ fuel + length s
unfolding to_digits
length-to_digits zero n s = omega arith
length-to_digits (suc fuel) n s =
    ground (arith, length-to_digits fuel (n / 10) ((b'0' + n % 10) ∷ s))

more_digits_end : (n c : ℕ) (s : Bytes) → is_digit c ≡ false → more_digits n (c ∷ s) ≡ (n, c ∷ s)
unfolding more_digits
more_digits_end n c s h = rw h refl

-- A number is read back, up to what follows if that is no digit.
pub scan_number-to_digits :
    (fuel n c : ℕ) (s : Bytes)
    → n < 10 ^ suc fuel
    → is_digit c ≡ false
    → scan_number (to_digits (suc fuel) n (c ∷ s)) ≡ some (n, c ∷ s)
unfolding scan_number
scan_number-to_digits fuel n c s h end =
    let (d, r, e, lt) = to_digits-digit fuel n (c ∷ s) in
    let digit : is_digit (b'0' + d) ≡ true = ground arith in
    let solid : is_space (b'0' + d) ≡ false = unfold is_space in ground arith in
    let skipped : skip_spaces ((b'0' + d) ∷ r) ≡ (b'0' + d) ∷ r =
      unfold skip_spaces in rw solid refl in
    let read : number_at ((b'0' + d) ∷ r) ≡ some (more_digits 0 ((b'0' + d) ∷ r)) =
      unfold number_at in rw digit refl in
    ap (λ z. number_at (skip_spaces z)) e
    ∙ ap number_at skipped
    ∙ read
    ∙ ap (λ z. some (more_digits 0 z)) (sym e)
    ∙ ap some (more_digits-to_digits (suc fuel) n (c ∷ s) h ∙ more_digits_end n c s end)

-- the digits go before what follows
pub to_digits-append :
    (fuel n : ℕ) (s t : Bytes) → to_digits fuel n (s ++ t) ≡ to_digits fuel n s ++ t
unfolding to_digits
to_digits-append zero n s t = refl
to_digits-append (suc fuel) n s t = elim (Bool-cases (ltb n 10)) [
  | inl small ↦ rw small refl
  | inr large ↦ rw large (to_digits-append fuel (n / 10) ((b'0' + n % 10) ∷ s) t)
]
