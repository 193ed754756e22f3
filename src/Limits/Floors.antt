-- ===== src/Limits/Floors.antt =====
-- The least that a container gets.
use vzgot.Base.{ℕ, ◌≤◌, Bool, true, false, none, some, List, [], ◌∷◌, ℤ, pos, negsuc, arith}
use vzgot.Text.{Bytes}
use vzgot.Meminfo.{read_sys_long, Sysinfo}
use vzgot.Sysfs.{
  Register, memory_max, swap_max, pids_max, Datum, number, Op, open_file, write, setcpuset,
  set_cont_weight, set_cont_usage, Trace, World, ◌>>◌, write_sys_long,
}
use vzgot.Sysfs.Calm.{
  Grows, Adds, return-Adds, >>-Adds, ignoring-Adds, call-Adds, open_and_write-Adds,
}
use vzgot.Limits.{
  Doubles, Host, Limit, pids, mem, swap, numcpu, pwrcpu, maxcpu, lims, min_pids, min_mem,
  at_least_pids, at_least_mem, group, store_pids, set_pids_max, total_max, total_swap, store_mem,
  set_mem_max, set_limit, set_limits, cgroup_limits,
}

-- what a write may store
abbrev pub Enough : Register → Datum → Type 0
Enough pids_max (number n) = min_pids ≤ n
Enough memory_max (number n) = min_mem ≤ n
Enough swap_max (number n) = Unit
Enough file datum = ⊥

-- a call of cgroup_limits: a write stores a number, and enough of it
abbrev pub IsFair : Op × Bool → Type 0
IsFair (open_file dir file, b) = Unit
IsFair (write dir file datum, b) = Enough file datum
IsFair (setcpuset value, b) = Unit
IsFair (set_cont_weight value, b) = Unit
IsFair (set_cont_usage value, b) = Unit
IsFair e = ⊥

at_least_pids-le : (n : ℤ) → min_pids ≤ at_least_pids n
unfolding at_least_pids
at_least_pids-le (pos n) = ground arith
at_least_pids-le (negsuc n) = omega arith

at_least_mem-le : (n : ℕ) → min_mem ≤ at_least_mem n
unfolding at_least_mem
at_least_mem-le n = ground arith

module _ (d : Doubles) (w : World) (h : Host) (contname : Bytes) where
  write-Adds :
      (file : Register) (n : ℕ)
      → Enough file (number n)
      → Adds IsFair (write_sys_long w (group d w h contname) file n)
  unfolding write_sys_long
  write-Adds file n e =
      open_and_write-Adds IsFair w true (group d w h contname) file (number n) (λ b. tt) (λ b. e)

  store_pids-Adds :
      (r : Bool × ℕ) (valeur : Bytes) → Adds IsFair (store_pids d w h contname r valeur)
  unfolding store_pids
  store_pids-Adds (false, n) valeur = return-Adds IsFair false
  store_pids-Adds (true, n) valeur = write-Adds pids_max (at_least_pids _) (at_least_pids-le _)

  store_mem-Adds :
      (swapping : Bool) (i : Sysinfo) (valeur : Bytes)
      → Adds IsFair (store_mem d w h contname swapping i valeur)
  unfolding store_mem
  store_mem-Adds false i valeur =
      ignoring-Adds IsFair (write_sys_long w (group d w h contname) swap_max 0)
        (write_sys_long w (group d w h contname) memory_max (total_max d i valeur))
        (write-Adds swap_max 0 tt)
        (write-Adds memory_max (total_max d i valeur) (unfold total_max in at_least_mem-le _))
  store_mem-Adds true i valeur = write-Adds swap_max (total_swap d i valeur) tt

  set_mem_max-Adds :
      (valeur : Bytes) (swapping : Bool) → Adds IsFair (set_mem_max d w h contname valeur swapping)
  unfolding set_mem_max
  set_mem_max-Adds valeur swapping =
      elim h.sysinfo
        as (λ o. Adds IsFair (elim o [
          | none ↦ λ t. (false, t)
          | some i ↦ store_mem d w h contname swapping i valeur
        ])) [ none ↦ return-Adds IsFair false | some i ↦ store_mem-Adds swapping i valeur ]

  set_limit-Adds : (cas : Limit) (value : Bytes) → Adds IsFair (set_limit d w h contname cas value)
  unfolding set_limit set_pids_max
  set_limit-Adds pids value = store_pids-Adds (read_sys_long h.strtoll h.pid_max 0) value
  set_limit-Adds mem value = set_mem_max-Adds value false
  set_limit-Adds swap value = set_mem_max-Adds value true
  set_limit-Adds numcpu value = call-Adds IsFair w (setcpuset value) (λ b. tt)
  set_limit-Adds pwrcpu value = call-Adds IsFair w (set_cont_weight value) (λ b. tt)
  set_limit-Adds maxcpu value = call-Adds IsFair w (set_cont_usage value) (λ b. tt)

  set_limits-Adds : (table : List (Bytes × Limit)) → Adds IsFair (set_limits d w h contname table)
  unfolding set_limits
  set_limits-Adds [] = return-Adds IsFair true
  set_limits-Adds ((val, cas) ∷ table) =
      let rest = set_limits d w h contname table in
      elim (h.getenv val)
        as (λ o.
          Adds IsFair
            (elim o [ none ↦ rest | some value ↦ set_limit d w h contname cas value >> rest ])) [
              | none ↦ set_limits-Adds table
              | some value ↦
                  >>-Adds IsFair (set_limit d w h contname cas value) rest
                    (set_limit-Adds cas value) (set_limits-Adds table)
            ]

  -- Whatever the variables say and whatever fails, cgroup_limits makes no other calls than those on
  -- the files of the limits and on the processors, and it never writes less than 100 to pids.max or
  -- less than 32 megabytes to memory.max.
  pub cgroup_limits-IsFair : (t : Trace) → Grows IsFair t (cgroup_limits d w h contname t).1
  unfolding cgroup_limits
  cgroup_limits-IsFair t = set_limits-Adds lims t
