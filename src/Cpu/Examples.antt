-- ===== src/Cpu/Examples.antt =====
-- A line of processors, with numbers written as so many strokes.
use vzgot.Base.{
  ℕ, zero, suc, ◌-◌, ◌≡◌, ◌≢◌, refl, ap, ap₂, true, false, Option, none, some, [], ◌∷◌, ◌++◌, ◌==◌,
  All, if◌then◌else◌, arith,
}
use vzgot.Text.{Bytes}
use vzgot.Cpu.{is_digit}
use vzgot.Cpu.Count.{starts_digit}

abbrev strokes : ℕ → Bytes
strokes zero = b'1' ∷ []
strokes (suc n) = b'1' ∷ strokes n

-- the strokes in front, and what is behind them
unfoldable ones : Bytes → ℕ × Bytes
ones [] = (0, [])
ones (c ∷ s) = let more = ones s in if c == b'1' then (suc more.0, more.1) else (0, c ∷ s)

unfoldable behind_dash : ℕ → Bytes → Option (ℕ × ℕ)
unfolding ones
behind_dash a [] = none
behind_dash a (c ∷ s) = if c == b'-' then some (a - 1, (ones s).0 - 1) else none

unfoldable scan : Bytes → Option (ℕ × ℕ)
unfolding behind_dash
scan s = behind_dash (ones s).0 (ones s).1

strokes-digit : (n : ℕ) → All (λ c. is_digit c ≡ true) (strokes n)
strokes-digit zero = (refl, tt)
strokes-digit (suc n) = (refl, strokes-digit n)

strokes-some : (n : ℕ) → strokes n ≢ []
strokes-some zero e = cc
strokes-some (suc n) e = cc

ones-tail : (tail : Bytes) → starts_digit tail ≡ false → ones tail ≡ (0, tail)
unfolding ones
ones-tail [] h = refl
ones-tail (c ∷ s) h = let e : (c == b'1') ≡ false = ground arith in rw e refl

ones-strokes :
    (n : ℕ) (tail : Bytes) → starts_digit tail ≡ false → ones (strokes n ++ tail) ≡ (suc n, tail)
unfolding ones
ones-strokes zero tail h = rw (ones-tail tail h) refl
ones-strokes (suc n) tail h = rw (ones-strokes n tail h) refl

scan-strokes :
    (a b : ℕ) (tail : Bytes)
    → starts_digit tail ≡ false
    → scan (strokes a ++ b'-' ∷ (strokes b ++ tail)) ≡ some (a, b)
unfolding scan behind_dash
scan-strokes a b tail h =
    rw (ones-strokes a (b'-' ∷ (strokes b ++ tail)) refl, ones-strokes b tail h)
      (ap some (ap₂ (λ x y. (x, y)) (omega arith) (omega arith)))
