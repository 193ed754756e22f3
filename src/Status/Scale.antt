-- ===== src/Status/Scale.antt =====
-- The unit in which the memory of a container is given, lib/utlsys.c: get_memory_info.
use vzgot.Base.{
  ℕ, zero, suc, ◌+◌, ◌*◌, ◌/◌, ◌^◌, ◌<◌, ◌≤◌, true, false, some, ◌≡◌, refl, sym, ap, ◌∙◌, ◌⊎◌, inl,
  inr, leb, Bool-cases, arith,
}
use native.Mathlib.Nat.{pow-succ', mul_assoc}
use vzgot.Text.{Bytes, codes, same}
use vzgot.CpuLimit.{first_line}
use vzgot.Status.Memory.{
  MemInf, MemFiles, unit_of, scale, set_info, max_in, with_max, get_memory_info,
}

-- the rounds made: as many as it takes to come below 1024, but `n` at most
abbrev pub IsRounds : ℕ → ℕ → ℕ → Type 0
IsRounds n max k = (k ≤ n) × ((max < 1024 ^ suc k) ⊎ (k ≡ n)) × ((1024 ^ k ≤ max) ⊎ (k ≡ 0))

round_more : (n max k : ℕ) → 1024 ≤ max → IsRounds n (max / 1024) k → IsRounds (suc n) max (suc k)
round_more n max k large (few, below, above) = (
  omega arith,
  elim below [
    | inl b ↦ inl (omega (arith, pow-succ' 1024 k, pow-succ' 1024 (suc k)))
    | inr e ↦ inr (ap suc e)
  ],
  elim above [ inl a ↦ inl (omega (arith, pow-succ' 1024 k)) | inr e ↦ inl (rw e large) ],
)

pair_path : (a b c e : ℕ) → a ≡ c → b ≡ e → ◌≡◌ {A = ℕ × ℕ} (a, b) (c, e)
pair_path a b c e h k = rw (h, k) refl

power_step : (quotient k : ℕ) → quotient * 1024 * 1024 ^ k ≡ quotient * 1024 ^ suc k
power_step quotient k =
    mul_assoc quotient 1024 (1024 ^ k) ∙ ap (λ n. quotient * n) (sym (pow-succ' 1024 k))

scale-IsRounds :
    (n max quotient index : ℕ)
    → (k : ℕ) × (scale n max quotient index ≡ (quotient * 1024 ^ k, index + k)) × IsRounds n max k
unfolding scale
scale-IsRounds zero max quotient index =
    (0, pair_path _ _ _ _ (omega arith) (omega arith), (omega arith, inr refl, inr refl))
scale-IsRounds (suc n) max quotient index = elim (Bool-cases (leb 1024 max)) [
  | inl large ↦
      let (k, e, rounds) = scale-IsRounds n (max / 1024) (quotient * 1024) (index + 1) in
      (
        suc k,
        rw large (e ∙ pair_path _ _ _ _ (power_step quotient k) (omega arith)),
        round_more n max k (ground arith) rounds,
      )
  | inr small ↦ (
    0,
    rw small (pair_path _ _ _ _ (omega arith) (omega arith)),
    (omega arith, inl (ground arith), inr refl),
  )
]

-- what is shown: the figure max / quotient is less than 1024 or in G, and it is not 0 unless the
-- limit is
abbrev pub IsShown : ℕ → ℕ → MemInf → Type 0
IsShown max used m =
    (k : ℕ) × (m ≡ record { max = max; used = used; quotient = 1024 ^ k; unit = unit_of k })
    × IsRounds 3 max k

pub set_info-IsShown : (max used : ℕ) → IsShown max used (set_info max used)
unfolding set_info
set_info-IsShown max used =
    let (k, e, rounds) = scale-IsRounds 3 max 1 0 in
    (
      k,
      ap (λ p. record { max = max; used = used; quotient = p.0; unit = unit_of p.1 })
          (e ∙ pair_path _ _ _ _ (omega arith) (omega arith)),
      rounds,
    )

max_in-some :
    (f : MemFiles) (total max : ℕ) (max_line : Bytes)
    → first_line 99 f.max_file ≡ some max_line
    → (same max_line (codes "max\n") ≡ true × max ≡ total)
      ⊎ (same max_line (codes "max\n") ≡ false × f.scan max_line ≡ some max)
    → max_in f total ≡ some max
unfolding max_in
max_in-some f total max max_line b (inl (all, e)) = rw (b, max_in, all, e) refl
max_in-some f total max max_line b (inr (number, e)) = rw (b, max_in, number, e) refl

-- When the memory of the host is known and the two files of the control group are read, the second
-- with a number and the first with a number or `max`, get_memory_info stores the limit, which is
-- the memory of the host for `max`, and the use. The quotient is the power of 1024 that belongs to
-- the unit, no more than 1024 ^ 3, and the least one in which the limit is below 1024 if there is
-- one. What it returns is false all the same.
pub get_memory_info-IsShown :
    (f : MemFiles) (m : MemInf) (total max used : ℕ) (max_line used_line : Bytes)
    → f.total ≡ some total
    → first_line 99 f.max_file ≡ some max_line
    → first_line 99 f.used_file ≡ some used_line
    → (same max_line (codes "max\n") ≡ true × max ≡ total)
      ⊎ (same max_line (codes "max\n") ≡ false × f.scan max_line ≡ some max)
    → f.scan used_line ≡ some used
    → ((get_memory_info f m).0 ≡ false) × IsShown max used (get_memory_info f m).1
unfolding get_memory_info with_max
get_memory_info-IsShown f m total max used max_line used_line a b c d e =
    let stored : with_max f m (some max) ≡ set_info max used = rw (c, with_max, e) refl in
    rw (a, max_in-some f total max max_line b d, stored) (refl, set_info-IsShown max used)
