-- ===== src/Status/Stat.antt =====
-- The statistics of the processors, lib/utlsys.c: sys_get_cpustat.
use vzgot.Base.{
  ℕ, zero, suc, ◌+◌, ◌^◌, ◌%◌, Bool, true, false, Option, none, some, List, [], ◌∷◌, ◌==◌,
  if◌then◌else◌,
}
use vzgot.Text.{Bytes, codes, line_of, c_str, same}
use vzgot.Account.{search_file}

-- CPUINF
pub record CpuInf : Type 0 where
  pub usage : ℕ
  pub pressure : ℕ
  pub throttled : ℕ
  pub nr_throttled : ℕ

-- what is read, with the formats "%49[^ ] %llu" and PRESFMT of `sscanf`
pub record StatFiles : Type 0 where
  pub stat : Option Bytes
  pub pressure_file : Option Bytes
  pub scan_pair : Bytes → Option (Bytes × ℕ)
  pub scan_total : Bytes → Option ℕ

abbrev pub put_line : Bytes → Option (List Bytes) → Option (List Bytes)
put_line line none = none
put_line line (some lines) = some (line ∷ lines)

-- phase 1, with room for `n` more lines than the one that is too many
unfoldable pub collect : ℕ → Bytes → Option (List Bytes)
collect n [] = some []
collect zero (c ∷ file) = none
collect (suc n) (c ∷ file) =
    let (line, rest) = line_of 99 (c ∷ file) in put_line (c_str line) (collect n rest)

abbrev pub put_pair : Option (Bytes × ℕ) → Option (List (Bytes × ℕ)) → Option (List (Bytes × ℕ))
put_pair none later = none
put_pair (some p) none = none
put_pair (some p) (some pairs) = some (p ∷ pairs)

-- phase 2
unfoldable pub parse : (Bytes → Option (Bytes × ℕ)) → List Bytes → Option (List (Bytes × ℕ))
parse scan [] = some []
parse scan (line ∷ lines) = put_pair (scan line) (parse scan lines)

-- the `for` loop over `vocstat`; whether the key is there
unfoldable pub store_value : Bytes → ℕ → CpuInf → Bool × CpuInf
store_value key value c =
    if same key (codes "usage_usec")
    then (true, record c { usage = value })
    else if same key (codes "nr_throttled")
    then (true, record c { nr_throttled = value % 2 ^ 32 })
    else if same key (codes "throttled_usec")
    then (true, record c { throttled = value })
    else (false, c)

-- phase 3; it ends when three values are stored
unfoldable pub store_values : ℕ → List (Bytes × ℕ) → CpuInf → Bool × CpuInf
unfolding store_value
store_values count [] c = (false, c)
store_values count ((key, value) ∷ pairs) c =
    let (known, c') = store_value key value c in
    let count' = if known then count + 1 else count in
    let rest = store_values count' pairs c' in if count' == 3 then (true, c') else rest

-- phases 4 and 5
unfoldable pub read_pressure : StatFiles → CpuInf → CpuInf
read_pressure f c = elim (search_file (λ s. s) (codes "some") f.pressure_file) [
  | none ↦ c
  | some line ↦ elim (f.scan_total line) [ none ↦ c | some n ↦ record c { pressure = n } ]
]

-- phases 3 to 5, with what phase 2 has parsed
unfoldable pub with_pairs : StatFiles → CpuInf → Option (List (Bytes × ℕ)) → Bool × CpuInf
unfolding store_values read_pressure
with_pairs f c none = (false, c)
with_pairs f c (some pairs) = let (isok, c') = store_values 0 pairs c in (isok, read_pressure f c')

-- CPTS is 15
unfoldable pub get_cpustat : StatFiles → CpuInf → Bool × CpuInf
unfolding collect parse with_pairs
get_cpustat f c = elim f.stat [
  | none ↦ (false, c)
  | some file ↦ elim (collect 14 file) [
    | none ↦ (false, c)
    | some lines ↦ with_pairs f c (parse f.scan_pair lines)
  ]
]
