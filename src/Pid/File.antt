-- ===== src/Pid/File.antt =====
-- The process number in the container's file.
use vzgot.Base.{
  ℕ, zero, suc, ◌+◌, ◌/◌, ◌%◌, ◌^◌, ◌<◌, ◌≡◌, ◌≢◌, refl, sym, ap, ◌∙◌, true, Option, some, [], ◌∷◌,
  ◌++◌, arith, ltb, if◌then◌else◌, length, All, Bool-cases, inl, inr,
}
use vzgot.Text.{Bytes, line_of}
use vzgot.Pid.{
  to_digits, print_number, scan_number, number_or_zero, Writing, set_cont_pid, get_cont_pid,
}
use vzgot.Pid.Digits.{scan_number-to_digits, to_digits-append, length-to_digits, to_digits-digit}

-- a line that fits the buffer is read whole, with its line feed
pub line_of-line :
    (n : ℕ) (s rest : Bytes)
    → All (λ c. c ≢ b'\n') s
    → length s < n
    → line_of n (s ++ b'\n' ∷ rest) ≡ (s ++ b'\n' ∷ [], rest)
unfolding line_of
line_of-line zero s rest h lt = absurd (omega arith)
line_of-line (suc n) [] rest h lt = refl
line_of-line (suc n) (c ∷ s) rest h lt = ground (arith, line_of-line n s rest h.1 (omega arith))

-- what holds of the ten digits, and of what follows
pub to_digits-All :
    (P : ℕ → Type 0)
    → ((d : ℕ) → d < 10 → P (b'0' + d))
    → (fuel n : ℕ) (s : Bytes) → All P s
    → All P (to_digits fuel n s)
unfolding to_digits
to_digits-All P each zero n s h = h
to_digits-All P each (suc fuel) n s h = elim (Bool-cases (ltb n 10)) [
  | inl small ↦ rw small (each n (ground arith), h)
  | inr large ↦
      rw large
        (to_digits-All P each fuel (n / 10) ((b'0' + n % 10) ∷ s) (each (n % 10) (omega arith), h))
]

pub to_digits_plain :
    (fuel n : ℕ) (s : Bytes) → All (λ c. c ≢ b'\n') s → All (λ c. c ≢ b'\n') (to_digits fuel n s)
to_digits_plain = to_digits-All (λ c. c ≢ b'\n') (λ d lt. omega arith)

get_cont_pid-cons :
    (file r : Bytes) (c : ℕ)
    → file ≡ c ∷ r
    → get_cont_pid (some file) ≡ number_or_zero (scan_number (line_of 78 file).0)
unfolding get_cont_pid
get_cont_pid-cons file r c e = rw e refl

get_cont_pid-print : (n : ℕ) → n < 2 ^ 31 → get_cont_pid (some (print_number n ++ b'\n' ∷ [])) ≡ n
unfolding print_number
get_cont_pid-print n h =
    let file : Bytes = to_digits 10 n [] ++ b'\n' ∷ [] in
    let whole : to_digits 10 n (b'\n' ∷ []) ≡ file = to_digits-append 10 n [] (b'\n' ∷ []) in
    let (d, r, e, lt) = to_digits-digit 9 n (b'\n' ∷ []) in
    get_cont_pid-cons file r (b'0' + d) (sym whole ∙ e)
    ∙ ap (λ z. number_or_zero (scan_number z.0))
        (line_of-line 78 (to_digits 10 n []) [] (to_digits_plain 10 n [] tt)
          (omega (arith, length-to_digits 10 n [])))
    ∙ ap (λ z. number_or_zero (scan_number z)) (sym whole)
    ∙ ap number_or_zero (scan_number-to_digits 9 n b'\n' [] (omega arith) refl)

-- The number that cnt_set_cont_pid says it has written is the one that cnt_get_cont_pid reads, if
-- the closing of the file flushes it; if the closing fails, cnt_set_cont_pid says the same, and
-- 0 is read.
pub get-set_cont_pid :
    (w : Writing) (n : ℕ) (file : Option Bytes)
    → n < 2 ^ 31
    → (set_cont_pid w n file).0 ≡ true
    → get_cont_pid (set_cont_pid w n file).1 ≡ (if w.flushes then n else 0)
unfolding set_cont_pid
get-set_cont_pid w n file h said = elim (Bool-cases w.opens) [
  | inr shut ↦ absurd (ground arith)
  | inl opened ↦ elim (Bool-cases w.prints) [
    | inr lost ↦ absurd (ground arith)
    | inl printed ↦ elim (Bool-cases w.flushes) [
      | inl kept ↦ rw (opened, printed, kept) (get_cont_pid-print n h)
      | inr gone ↦ rw (opened, printed, gone) (unfold get_cont_pid in refl)
    ]
  ]
]
