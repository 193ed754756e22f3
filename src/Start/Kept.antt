-- ===== src/Start/Kept.antt =====
-- The starting time that is written is the one that is read.
use vzgot.Base.{
  ℕ, ◌+◌, ◌^◌, ◌<◌, ◌≡◌, ◌≢◌, refl, sym, ap, ◌∙◌, true, Bool-cases, Option, none, some, [], ◌∷◌,
  ◌++◌, inl, inr, arith,
}
use vzgot.Text.{Bytes, line_of, c_str}
use vzgot.Pid.{to_digits, number_or_zero}
use vzgot.Pid.Digits.{scan_number-to_digits, to_digits-append, to_digits-digit, length-to_digits}
use vzgot.Pid.File.{line_of-line, to_digits-All, to_digits_plain}
use vzgot.Account.Field.{c_str_self}
use vzgot.CpuLimit.{first_line}
use vzgot.Start.{micros, Writing, write_start, set_start, start_in, get_start}

first_line-cons :
    (file r : Bytes) (c : ℕ)
    → file ≡ c ∷ r
    → first_line 99 (some file) ≡ some (c_str (line_of 99 file).0)
unfolding first_line
first_line-cons file r c e = rw e refl

-- the line of a number
number_line :
    (n : ℕ)
    → first_line 99 (some (to_digits 20 n (b'\n' ∷ []))) ≡ some (to_digits 20 n (b'\n' ∷ []))
number_line n =
    let file = to_digits 20 n (b'\n' ∷ []) in
    let whole : file ≡ to_digits 20 n [] ++ b'\n' ∷ [] = to_digits-append 20 n [] (b'\n' ∷ []) in
    let (d, r, e, lt) = to_digits-digit 19 n (b'\n' ∷ []) in
    first_line-cons file r (b'0' + d) e
    ∙ ap (λ z. some (c_str (line_of 99 z).0)) whole
    ∙ ap (λ z. some (c_str z.0))
        (line_of-line 99 (to_digits 20 n []) [] (to_digits_plain 20 n [] tt)
          (omega (arith, length-to_digits 20 n [])))
    ∙ ap (λ z. some (c_str z)) (sym whole)
    ∙ ap some (
        c_str_self file
          (to_digits-All (λ c. c ≢ 0) (λ d lt. omega arith) 20 n (b'\n' ∷ []) (omega arith, tt)))

start_in_line :
    (n : ℕ) → n < 2 ^ 64 → start_in (first_line 99 (some (to_digits 20 n (b'\n' ∷ [])))) ≡ n
start_in_line n h =
    ap start_in (number_line n)
    ∙ ap number_or_zero (scan_number-to_digits 19 n b'\n' [] (omega arith) refl)

-- what is written is read back, in the same directory
write-get_start :
    (c : ℕ) (homefs : Bytes) (w : Writing) (n : ℕ) (file : Option Bytes)
    → n < 2 ^ 64
    → (write_start w n file).0 ≡ true
    → get_start (some (c ∷ homefs)) (write_start w n file).1 ≡ n
unfolding write_start get_start
write-get_start c homefs w n file h said = elim (Bool-cases w.opens) [
  | inr shut ↦ absurd (ground arith)
  | inl opened ↦ elim (Bool-cases w.closes) [
    | inr lost ↦ absurd (ground arith)
    | inl closed ↦ rw (opened, closed) (start_in_line n h)
  ]
]

-- When sys_set_start returns true, get_start reads the time that it was given, in microseconds
-- modulo 2 ^ 64.
pub get-set_start :
    (homefs : Option Bytes) (w : Writing) (tv_sec tv_usec : ℕ) (file : Option Bytes)
    → (set_start homefs w (micros tv_sec tv_usec) file).0 ≡ true
    → get_start homefs (set_start homefs w (micros tv_sec tv_usec) file).1 ≡ micros tv_sec tv_usec
unfolding set_start
get-set_start none w tv_sec tv_usec file said = absurd cc
get-set_start (some []) w tv_sec tv_usec file said = absurd cc
get-set_start (some (c ∷ homefs)) w tv_sec tv_usec file said =
    write-get_start c homefs w (micros tv_sec tv_usec) file (omega arith) said
