-- ===== src/Limits.antt =====
-- The limits of a container's control group: cgroup_limits of lib/unicnt.c, prc_setpidsmax and
-- prc_setmemmax of lib/subprc.c and apl_getdouble of lib/utlapl.c. The numbers of type double and
-- the C library's conversions of them are a parameter; sys_setcpuset, sys_set_cont_weight and
-- sys_set_cont_usage are one call each.
pub mod Floors
pub mod Swap
mod Examples
use vzgot.Base.{
  ℕ, zero, suc, ◌*◌, ◌^◌, Bool, true, false, not, Option, none, some, List, [], ◌∷◌, ltb,
  if◌then◌else◌, ℤ, pos, negsuc,
}
use vzgot.Text.{Bytes, codes, is_space}
use vzgot.Meminfo.{read_sys_long, mul64, Sysinfo}
use vzgot.Sysfs.{
  Dir, child, Register, memory_max, swap_max, pids_max, Op, setcpuset, set_cont_weight,
  set_cont_usage, Trace, World, Ret, Cmd, ◌>>◌, ignoring, get_sysfs, cgr_containers, call,
  write_sys_long,
}

-- the type double, with what the code does with it
pub record Doubles : Type 1 where
  pub Double : Type 0
  pub zero_point : Double
  pub of_u64 : ℕ → Double
  pub times : Double → Double → Double
  pub percent : Double → Double
  pub to_u64 : Double → ℕ
  pub to_long : Double → ℤ
  -- the number, and the text that `err` points to
  pub strtod : Bytes → Double × Bytes

-- what the functions read
pub record Host : Type 0 where
  pub pid_max : Option Bytes
  pub strtoll : Bytes → ℕ × Bytes
  pub sysinfo : Option Sysinfo
  pub getenv : Bytes → Option Bytes

abbrev pub ends_number : Bytes → Bool
ends_number [] = true
ends_number (c ∷ s) = is_space c

-- the fields of `lims`
pub data Limit : Type 0 where
  pids mem swap numcpu pwrcpu maxcpu : Limit

abbrev pub lims : List (Bytes × Limit)
lims =
    (codes "PIDMAX", pids)
    ∷ (codes "MEMMAX", mem)
    ∷ (codes "SWAPMAX", swap)
    ∷ (codes "NUMCPU", numcpu)
    ∷ (codes "PWRCPU", pwrcpu)
    ∷ (codes "MAXCPU", maxcpu)
    ∷ []

-- MINMAX of prc_setpidsmax and of prc_setmemmax
abbrev pub min_pids : ℕ
min_pids = 100

abbrev pub min_mem : ℕ
min_mem = 32 * (1024 * 1024)

-- phase 1 of prc_setpidsmax
unfoldable pub at_least_pids : ℤ → ℕ
at_least_pids (negsuc n) = min_pids
at_least_pids (pos n) = if ltb n min_pids then min_pids else n

unfoldable pub at_least_mem : ℕ → ℕ
at_least_mem n = if ltb n min_mem then min_mem else n

module _ (d : Doubles) where
  -- apl_getdouble
  unfoldable pub get_double : Bytes → d.Double
  get_double valeur =
      let (convert, err) = d.strtod valeur in if ends_number err then convert else d.zero_point

  -- `((double)n*ratio)/100.0`
  abbrev pub part_of : ℕ → Bytes → d.Double
  part_of n valeur = d.percent (d.times (d.of_u64 n) (get_double valeur))

  unfoldable pub total_max : Sysinfo → Bytes → ℕ
  total_max i valeur = at_least_mem (d.to_u64 (part_of (mul64 i.totalram i.mem_unit) valeur))

  unfoldable pub total_swap : Sysinfo → Bytes → ℕ
  total_swap i valeur = d.to_u64 (part_of (mul64 i.totalswap i.mem_unit) valeur)

  module _ (w : World) (h : Host) (contname : Bytes) where
    abbrev pub group : Dir
    group = child (get_sysfs cgr_containers) contname

    -- phases 1 and 2, with the answer of phase 0
    unfoldable pub store_pids : Bool × ℕ → Bytes → Cmd
    store_pids (false, n) valeur = λ t. (false, t)
    store_pids (true, n) valeur =
        write_sys_long w group pids_max (at_least_pids (d.to_long (part_of n valeur)))

    unfoldable pub set_pids_max : Bytes → Cmd
    unfolding store_pids
    set_pids_max valeur = store_pids (read_sys_long h.strtoll h.pid_max 0) valeur

    -- phases 1 to 3 of prc_setmemmax; the flag is `swap`
    unfoldable pub store_mem : Bool → Sysinfo → Bytes → Cmd
    store_mem false i valeur =
        ignoring (write_sys_long w group swap_max 0)
          (write_sys_long w group memory_max (total_max i valeur))
    store_mem true i valeur = write_sys_long w group swap_max (total_swap i valeur)

    unfoldable pub set_mem_max : Bytes → Bool → Cmd
    unfolding store_mem
    set_mem_max valeur swapping = elim h.sysinfo [
      | none ↦ λ t. (false, t)
      | some i ↦ store_mem swapping i valeur
    ]

    -- the `switch` of cgroup_limits
    unfoldable pub set_limit : Limit → Bytes → Cmd
    unfolding set_pids_max set_mem_max
    set_limit pids value = set_pids_max value
    set_limit mem value = set_mem_max value false
    set_limit swap value = set_mem_max value true
    set_limit numcpu value = call w (setcpuset value)
    set_limit pwrcpu value = call w (set_cont_weight value)
    set_limit maxcpu value = call w (set_cont_usage value)

    -- the `while` loop; a variable that is not set is passed over
    unfoldable pub set_limits : List (Bytes × Limit) → Cmd
    set_limits [] = λ t. (true, t)
    set_limits ((val, cas) ∷ table) = elim (h.getenv val) [
      | none ↦ set_limits table
      | some value ↦ set_limit cas value >> set_limits table
    ]

    unfoldable pub cgroup_limits : Cmd
    unfolding set_limits
    cgroup_limits = set_limits lims
