-- ===== src/Status/Memory.antt =====
-- The memory of a container or of all, lib/utlsys.c: get_memory_info and get_memory_stress.
use vzgot.Base.{
  ℕ, zero, suc, ◌+◌, ◌*◌, ◌/◌, Bool, true, false, Option, none, some, [], ◌∷◌, leb, if◌then◌else◌,
}
use vzgot.Text.{Bytes, codes, line_of, c_str, same}
use vzgot.CpuLimit.{first_line}

-- MEMINF
pub record MemInf : Type 0 where
  pub max : ℕ
  pub used : ℕ
  pub quotient : ℕ
  pub unit : Bytes

-- what is read: `total` is the memory or the swap of the host, none if sysinfo fails
pub record MemFiles : Type 0 where
  pub total : Option ℕ
  pub max_file : Option Bytes
  pub used_file : Option Bytes
  -- "%llu"
  pub scan : Bytes → Option ℕ

unfoldable pub unit_of : ℕ → Bytes
unit_of zero = []
unit_of (suc zero) = codes "K"
unit_of (suc (suc zero)) = codes "M"
unit_of (suc (suc (suc index))) = codes "G"

-- the `while` loop, with `n` rounds left until `index` is 3; the quotient and the index
unfoldable pub scale : ℕ → ℕ → ℕ → ℕ → ℕ × ℕ
scale zero max quotient index = (quotient, index)
scale (suc n) max quotient index =
    let rest = scale n (max / 1024) (quotient * 1024) (index + 1) in
    if leb 1024 max then rest else (quotient, index)

-- phase 8
unfoldable pub set_info : ℕ → ℕ → MemInf
unfolding scale unit_of
set_info max used =
    let (quotient, index) = scale 3 max 1 0 in
    record { max = max; used = used; quotient = quotient; unit = unit_of index }

-- phases 3 and 4
unfoldable pub max_in : MemFiles → ℕ → Option ℕ
max_in f total = elim (first_line 99 f.max_file) [
  | none ↦ none
  | some line ↦ if same line (codes "max\n") then some total else f.scan line
]

-- phases 5 to 8, with the limit
unfoldable pub with_max : MemFiles → MemInf → Option ℕ → MemInf
unfolding set_info
with_max f m none = m
with_max f m (some max) = elim (first_line 99 f.used_file) [
  | none ↦ m
  | some line ↦ elim (f.scan line) [ none ↦ m | some used ↦ set_info max used ]
]

-- `isok` is never set
unfoldable pub get_memory_info : MemFiles → MemInf → Bool × MemInf
unfolding max_in with_max
get_memory_info f m = elim f.total [
  | none ↦ (false, m)
  | some total ↦ (false, with_max f m (max_in f total))
]

-- ---- get_memory_stress ----

-- OOMINF
pub record OomInf (Double : Type 0) : Type 0 where
  pub avg10 : Double
  pub oom_kill : ℕ

-- what is read, with the two formats of `sscanf`
pub record StressFiles (Double : Type 0) : Type 0 where
  pub events : Option Bytes
  pub pressure : Option Bytes
  pub scan_oom : Bytes → Option ℕ
  pub scan_some : Bytes → Option Double

abbrev pub found_or : {A : Type 0} → Option A → Bool × Option A → Bool × Option A
found_or (some a) later = (true, some a)
found_or none later = later

-- The loop with `nbrline` lines left: whether the next phase comes, and the number found. The end
-- of the file is no failure, 100 lines without the number are one.
unfoldable pub find_number : {A : Type 0} → (Bytes → Option A) → ℕ → Bytes → Bool × Option A
find_number scan zero file = (false, none)
find_number scan (suc n) [] = (true, none)
find_number scan (suc n) (c ∷ file) =
    let (line, rest) = line_of 99 (c ∷ file) in
    found_or (scan (c_str line)) (find_number scan n rest)

abbrev pub number_or : {A : Type 0} → A → Option A → A
number_or a none = a
number_or a (some b) = b

-- phases 3 and 4
unfoldable pub read_pressure :
    {Double : Type 0} → StressFiles Double → OomInf Double → OomInf Double
unfolding find_number
read_pressure f o = elim f.pressure [
  | none ↦ o
  | some file ↦ record o { avg10 = number_or o.avg10 (find_number f.scan_some 100 file).1 }
]

-- phases 3 and 4, where phase 2 lets them come
abbrev pub with_oom :
    {Double : Type 0} → StressFiles Double → OomInf Double → Bool × Option ℕ → OomInf Double
with_oom f o (false, n) = o
with_oom f o (true, n) = read_pressure f (record o { oom_kill = number_or o.oom_kill n })

-- `isok` is true from the start
unfoldable pub get_memory_stress :
    {Double : Type 0} → StressFiles Double → OomInf Double → Bool × OomInf Double
unfolding find_number read_pressure
get_memory_stress f o = elim f.events [
  | none ↦ (true, o)
  | some file ↦ (true, with_oom f o (find_number f.scan_oom 100 file))
]
