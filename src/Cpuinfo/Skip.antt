-- ===== src/Cpuinfo/Skip.antt =====
-- skipcpuinfo on the description of one processor.
use vzgot.Base.{
  ℕ, zero, suc, ◌+◌, ◌%◌, ◌<◌, ◌≤◌, ◌≡◌, ◌≢◌, refl, ap, ◌∙◌, false, List, [], ◌∷◌, ◌++◌, length,
  length-append, take, drop, ltb, All, arith, Bool-cases, inl, inr, ◌⊎◌,
}
use vzgot.Text.{Bytes, line_of, starts_with}
use vzgot.Pid.File.{line_of-line}
use vzgot.Cpuinfo.{skip_more, skip_cpu}
use vzgot.Cpuinfo.Block.{Entry, IsEntry, line, text, All-key}

-- a line that does not fit the buffer is read in part
line_of-long :
    (n : ℕ) (s rest : Bytes)
    → All (λ c. c ≢ b'\n') s
    → n ≤ length s
    → line_of n (s ++ rest) ≡ (take n s, drop n s ++ rest)
unfolding line_of
line_of-long zero s rest h le = refl
line_of-long (suc n) [] rest h le = absurd (omega arith)
line_of-long (suc n) (c ∷ s) rest h le = ground (arith, line_of-long n s rest h.1 (omega arith))

drop-All : (n : ℕ) (s : Bytes) → All (λ c. c ≢ b'\n') s → All (λ c. c ≢ b'\n') (drop n s)
drop-All zero s h = h
drop-All (suc n) [] h = h
drop-All (suc n) (c ∷ s) h = drop-All n s h.1

length-drop : (n : ℕ) (s : Bytes) → n ≤ length s → length (drop n s) + n ≡ length s
length-drop zero s le = omega arith
length-drop (suc n) [] le = absurd (omega arith)
length-drop (suc n) (c ∷ s) le = omega (arith, length-drop n s (omega arith))

starts_with-take : (d n c : ℕ) (s : Bytes) → c ≢ d → 0 < n → starts_with d (take n (c ∷ s)) ≡ false
unfolding starts_with
starts_with-take d zero c s h lt = absurd (omega arith)
starts_with-take d (suc n) c s h lt = ground arith

starts_with-cons : (d c : ℕ) (s : Bytes) → c ≢ d → starts_with d (c ∷ s) ≡ false
unfolding starts_with
starts_with-cons d c s h = ground arith

below_or_not : (a b : ℕ) → (a < b) ⊎ (b ≤ a)
below_or_not a b = elim (Bool-cases (ltb a b)) [
  | inl e ↦ inl (ground arith)
  | inr e ↦ inr (ground arith)
]

-- one pass of the loop, with what `fgets` reads
skip_pass :
    (fuel c : ℕ) (s piece rest : Bytes)
    → line_of 198 (c ∷ s) ≡ (piece, rest)
    → starts_with b'\n' piece ≡ false
    → skip_cpu (suc fuel) (c ∷ s) ≡ skip_cpu fuel rest
unfolding skip_cpu
skip_pass fuel c s piece rest e other =
    ap (λ r. skip_more (starts_with b'\n' r.0) r.1 (skip_cpu fuel r.1)) e
    ∙ ap (λ b. skip_more b rest (skip_cpu fuel rest)) other

-- a line is passed over, in as many pieces as it takes
skip_line :
    (fuel k : ℕ) (s rest out : Bytes)
    → All (λ c. c ≢ b'\n') s
    → length s % 198 ≢ 0
    → length s + k < fuel
    → ((f : ℕ) → k ≤ f → skip_cpu f rest ≡ out)
    → skip_cpu fuel (s ++ b'\n' ∷ rest) ≡ out
skip_line zero k s rest out h u lt later = absurd (omega arith)
skip_line (suc fuel) k [] rest out h u lt later = absurd (omega arith)
skip_line (suc fuel) k (c ∷ s) rest out h u lt later = elim (below_or_not (length (c ∷ s)) 198) [
  | inl short ↦
      skip_pass fuel c (s ++ b'\n' ∷ rest) (c ∷ s ++ b'\n' ∷ []) rest
        (line_of-line 198 (c ∷ s) rest h (omega arith)) (starts_with-cons b'\n' c _ h.0)
      ∙ later fuel (omega arith)
  | inr long ↦
      let left = length-drop 198 (c ∷ s) (omega arith) in
      skip_pass fuel c (s ++ b'\n' ∷ rest) (take 198 (c ∷ s)) (drop 198 (c ∷ s) ++ b'\n' ∷ rest)
        (line_of-long 198 (c ∷ s) (b'\n' ∷ rest) h (omega arith))
        (starts_with-take b'\n' 198 c s h.0 (omega arith))
      ∙ skip_line fuel k (drop 198 (c ∷ s)) rest out (drop-All 198 (c ∷ s) h) (omega (arith, left))
          (omega (arith, left)) later
]

skip_cpu-end : (fuel : ℕ) (rest : Bytes) → skip_cpu (suc fuel) (b'\n' ∷ rest) ≡ rest
unfolding skip_cpu starts_with
skip_cpu-end fuel rest =
    ap (λ r. skip_more (starts_with b'\n' r.0) r.1 (skip_cpu fuel r.1))
      (line_of-line 198 [] rest tt (omega arith))

-- skipcpuinfo passes over one description, whatever follows it.
pub skip_cpu-text :
    (es : List Entry) (fuel : ℕ) (rest : Bytes)
    → All IsEntry es
    → length (text es rest) ≤ fuel
    → skip_cpu fuel (text es rest) ≡ rest
skip_cpu-text [] zero rest h le = absurd (omega arith)
skip_cpu-text [] (suc fuel) rest h le = skip_cpu-end fuel rest
skip_cpu-text (e ∷ es) fuel rest h le =
    skip_line fuel (length (text es rest)) (line e) (text es rest) rest
      (All-key e.key h.0.key_plain e.value h.0.value_plain) h.0.uneven
      (omega (arith, length-append (line e) (b'\n' ∷ text es rest)))
      (λ f k. skip_cpu-text es f rest h.1 k)
