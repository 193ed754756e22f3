-- ===== src/CpuLimit.antt =====
-- The weight and the ceiling of a container's processors, lib/utlsys.c: sys_set_cont_weight,
-- sys_set_cont_usage, sys_get_cont_weight, sys_get_cont_ceiling and sys_get_cont_cpulist. The type
-- double and the conversions of the C library are parameters, and so is the number of processors
-- that sys_get_numcpu gives, which Cpu models.
pub mod Range
mod Examples
use vzgot.Base.{
  ℕ, zero, suc, ◌*◌, Bool, true, false, Option, none, some, List, [], ◌∷◌, ◌++◌, ltb, ◌==◌,
  if◌then◌else◌,
}
use vzgot.Text.{Bytes, codes, line_of, c_str, skip_spaces}
use vzgot.Text.Scan.{word_of}
use vzgot.Pid.{print_number}
use vzgot.Meminfo.{read_sys_long}
use vzgot.Sysfs.{
  Dir, child, cpu_weight, cpu_max, text, number, Op, open_file, probe, flush, Trace, World, Ret,
  Cmd, ◌>>◌, ignoring, get_sysfs, cgr_containers, call, write_sys_long,
}

-- the type double, with what the code does with it
pub record Doubles : Type 1 where
  pub Double : Type 0
  -- `(u_vlong)((n*ratio)/100.0)`
  pub share : ℕ → Double → ℕ
  -- `(u_vlong)((ratio*numcpu*SAMPLE)/100.0)`
  pub usage : Double → ℕ → ℕ

-- what the functions read
pub record Host : Type 0 where
  pub strtoll : Bytes → ℕ × Bytes
  pub getenv : Bytes → Option Bytes
  -- cpu.weight of the containers, and of the container
  pub root_weight : Trace → Option Bytes
  pub cont_weight : Option Bytes
  pub cpu_max_file : Option Bytes
  pub cpuset_file : Option Bytes
  -- "%31s %llu", if both are there
  pub scan_max : Bytes → Option (Bytes × ℕ)

-- MAXW and SAMPLE
abbrev pub max_weight : ℕ
max_weight = 10000

abbrev pub sample : ℕ
sample = 100000

-- phase 2 of sys_set_cont_weight
unfoldable pub clamp_weight : ℕ → ℕ
clamp_weight n =
    let low = if ltb n 1 then 1 else n in if ltb max_weight low then max_weight else low

-- phase 2 of sys_set_cont_usage
unfoldable pub consigne : ℕ → ℕ → Bytes
consigne numcpu usage =
    let quota = if usage == 0 then 25000 else usage in
    if ltb quota (numcpu * sample)
    then print_number quota ++ (b' ' ∷ print_number sample)
    else codes "max " ++ print_number sample

module _ (d : Doubles) (w : World) (h : Host) (contname : Bytes) where
  abbrev pub group : Dir
  group = child (get_sysfs cgr_containers) contname

  -- ---- sys_set_cont_weight ----

  -- phase 0
  unfoldable pub set_root_weight : Cmd
  set_root_weight = elim (h.getenv (codes "CPUWEIGHT")) [
    | none ↦ λ t. (true, t)
    | some v ↦ write_sys_long w (get_sysfs cgr_containers) cpu_weight (h.strtoll v).0
  ]

  -- phases 2 to 4, with what phase 1 has read; `isok` is true before the file is opened
  unfoldable pub store_weight : d.Double → Bool × ℕ → Cmd
  store_weight ratio (false, n) = λ t. (false, t)
  store_weight ratio (true, n) =
      ignoring
        (call w (open_file group cpu_weight)
          >> call w (flush group cpu_weight (number (clamp_weight (d.share n ratio)))))
        (λ t. (true, t))

  unfoldable pub read_weight : Trace → Bool × ℕ
  read_weight t = read_sys_long h.strtoll (h.root_weight t) 0

  unfoldable pub set_cont_weight : d.Double → Cmd
  unfolding set_root_weight store_weight
  set_cont_weight ratio = ignoring set_root_weight (λ t. store_weight ratio (read_weight t) t)

  -- ---- sys_set_cont_usage ----

  -- phases 2 to 4
  unfoldable pub store_usage : d.Double → ℕ → Cmd
  store_usage ratio numcpu =
      call w (open_file group cpu_max)
      >> ignoring
          (call w
            (flush group cpu_max (text (consigne numcpu (d.usage ratio numcpu) ++ b'\n' ∷ []))))
          (λ t. (true, t))

  unfoldable pub set_cont_usage : d.Double → ℕ → Cmd
  unfolding store_usage
  set_cont_usage ratio numcpu =
      call w (probe (get_sysfs cgr_containers) cpu_max)
      >> (if numcpu == 0 then (λ t. (false, t)) else store_usage ratio numcpu)

-- ---- the readers ----

abbrev pub both_read : Bool × ℕ → Bool × ℕ → Option (ℕ × ℕ)
both_read (true, total) (true, cont) = some (cont, total)
both_read (true, total) (false, cont) = none
both_read (false, total) r = none

-- the two numbers of "%llu/%llu"
unfoldable pub get_cont_weight : Host → Trace → Option (ℕ × ℕ)
get_cont_weight h t =
    both_read (read_sys_long h.strtoll (h.root_weight t) 0)
      (read_sys_long h.strtoll h.cont_weight 0)

-- the line that `fgets` gives with a buffer of `n + 1` bytes
unfoldable pub first_line : ℕ → Option Bytes → Option Bytes
first_line n none = none
first_line n (some []) = none
first_line n (some (c ∷ file)) = some (c_str (line_of n (c ∷ file)).0)

-- the word and the number of "%s/%llu"
unfoldable pub get_cont_ceiling : Host → Option (Bytes × ℕ)
unfolding first_line
get_cont_ceiling h = elim (first_line 99 h.cpu_max_file) [
  | none ↦ none
  | some line ↦ h.scan_max line
]

-- "%s" fails where no word is left
abbrev pub word_in : Bytes → Option Bytes
word_in [] = none
word_in (c ∷ s) = some (c ∷ s)

unfoldable pub get_cont_cpulist : Host → Option Bytes
unfolding first_line
get_cont_cpulist h = elim (first_line 199 h.cpuset_file) [
  | none ↦ none
  | some line ↦ word_in (word_of 199 (skip_spaces line))
]
