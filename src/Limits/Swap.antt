-- ===== src/Limits/Swap.antt =====
-- The order of the limits: the limit on the memory resets the one on the swap.
use vzgot.Base.{◌≡◌, refl, sym, ap, ◌∙◌, Bool, true, false, Option, none, some, List, [], ◌∷◌, All}
use vzgot.Text.{Bytes, codes}
use vzgot.Meminfo.{Sysinfo}
use vzgot.Sysfs.{
  Dir, Register, swap_max, Datum, number, Op, open_file, write, probe, flush, pin, mkdir, rmdir,
  sleep, setcpuset, set_cont_weight, set_cont_usage, Trace, World, Ret, Cmd, go_on, ◌>>◌, call,
  write_sys_long, open_and_write, get_sysfs,
}
use vzgot.Sysfs.Calm.{Grows, stay, more, Adds, return-Adds, >>-Adds, call-Adds}
use vzgot.Limits.{
  Doubles, Host, Limit, pids, mem, swap, numcpu, pwrcpu, maxcpu, group, total_swap, store_mem,
  set_mem_max, set_limit, set_limits, cgroup_limits,
}

-- what the newest successful write to memory.swap.max has stored
unfoldable pub swap_stored : Trace → Option Datum
swap_stored [] = none
swap_stored ((write dir swap_max datum, true) ∷ t) = some datum
swap_stored (e ∷ t) = swap_stored t

-- not a write
abbrev pub IsQuiet : Op × Bool → Type 0
IsQuiet (setcpuset value, b) = Unit
IsQuiet (set_cont_weight value, b) = Unit
IsQuiet (set_cont_usage value, b) = Unit
IsQuiet e = ⊥

swap_stored-IsQuiet : (e : Op × Bool) (t : Trace) → IsQuiet e → swap_stored (e ∷ t) ≡ swap_stored t
unfolding swap_stored
swap_stored-IsQuiet (open_file dir file, b) t q = absurd q
swap_stored-IsQuiet (write dir file datum, b) t q = absurd q
swap_stored-IsQuiet (probe dir file, b) t q = absurd q
swap_stored-IsQuiet (flush dir file datum, b) t q = absurd q
swap_stored-IsQuiet (pin pid, b) t q = absurd q
swap_stored-IsQuiet (mkdir dir mode, b) t q = absurd q
swap_stored-IsQuiet (rmdir path, b) t q = absurd q
swap_stored-IsQuiet (sleep, b) t q = absurd q
swap_stored-IsQuiet (setcpuset value, b) t q = refl
swap_stored-IsQuiet (set_cont_weight value, b) t q = refl
swap_stored-IsQuiet (set_cont_usage value, b) t q = refl

swap_stored-Grows : (t u : Trace) → Grows IsQuiet t u → swap_stored u ≡ swap_stored t
swap_stored-Grows t u stay = refl
swap_stored-Grows t u (more e t' q g) = swap_stored-IsQuiet e t' q ∙ swap_stored-Grows t t' g

go_on-true : (r : Ret) (k : Cmd) → (go_on r k).0 ≡ true → go_on r k ≡ k r.1
go_on-true (true, u) k h = refl
go_on-true (false, u) k h = cc

abbrev IsCpu : Limit → Type 0
IsCpu numcpu = Unit
IsCpu pwrcpu = Unit
IsCpu maxcpu = Unit
IsCpu cas = ⊥

module _ (d : Doubles) (w : World) (h : Host) (contname : Bytes) where
  set_limit-IsCpu :
      (cas : Limit) (value : Bytes) → IsCpu cas → Adds IsQuiet (set_limit d w h contname cas value)
  unfolding set_limit
  set_limit-IsCpu pids value c = absurd c
  set_limit-IsCpu mem value c = absurd c
  set_limit-IsCpu swap value c = absurd c
  set_limit-IsCpu numcpu value c = call-Adds IsQuiet w (setcpuset value) (λ b. tt)
  set_limit-IsCpu pwrcpu value c = call-Adds IsQuiet w (set_cont_weight value) (λ b. tt)
  set_limit-IsCpu maxcpu value c = call-Adds IsQuiet w (set_cont_usage value) (λ b. tt)

  set_limits-IsCpu :
      (table : List (Bytes × Limit))
      → All (λ e. IsCpu e.1) table
      → Adds IsQuiet (set_limits d w h contname table)
  unfolding set_limits
  set_limits-IsCpu [] c = return-Adds IsQuiet true
  set_limits-IsCpu ((val, cas) ∷ table) c =
      let rest = set_limits d w h contname table in
      elim (h.getenv val)
        as (λ o.
          Adds IsQuiet
            (elim o [ none ↦ rest | some value ↦ set_limit d w h contname cas value >> rest ])) [
              | none ↦ set_limits-IsCpu table c.1
              | some value ↦
                  >>-Adds IsQuiet (set_limit d w h contname cas value) rest
                    (set_limit-IsCpu cas value c.0) (set_limits-IsCpu table c.1)
            ]

  -- a limit that succeeds hands its trace to the others
  set_limits_step :
      (val : Bytes) (cas : Limit) (table : List (Bytes × Limit)) (t : Trace)
      → (set_limits d w h contname ((val, cas) ∷ table) t).0 ≡ true
      → (u : Trace) × (set_limits d w h contname ((val, cas) ∷ table) t
          ≡ set_limits d w h contname table u)
  unfolding set_limits
  set_limits_step val cas table t =
      let rest = set_limits d w h contname table in
      elim (h.getenv val)
        as (λ o.
          let after : Cmd = elim o [
            | none ↦ rest
            | some value ↦ set_limit d w h contname cas value >> rest
          ] in
          (after t).0 ≡ true → (u : Trace) × (after t ≡ rest u)) [
            | none ↦ λ said. (t, refl)
            | some value ↦ λ said. (
              (set_limit d w h contname cas value t).1,
              go_on-true (set_limit d w h contname cas value t) rest said,
            )
          ]

  -- a limit whose variable is set, and that succeeds
  set_limits_set :
      (val : Bytes) (cas : Limit) (table : List (Bytes × Limit)) (t u : Trace) (value : Bytes)
      → h.getenv val ≡ some value
      → set_limit d w h contname cas value t ≡ (true, u)
      → set_limits d w h contname ((val, cas) ∷ table) t ≡ set_limits d w h contname table u
  unfolding set_limits
  set_limits_set val cas table t u value e f =
      let rest = set_limits d w h contname table in
      ap
        (λ o.
          let after : Cmd = elim o [
            | none ↦ rest
            | some value ↦ set_limit d w h contname cas value >> rest
          ] in
          after t)
        e
      ∙ ap (λ r. go_on r rest) f

  module _
      (opens : (t : Trace) (dir : Dir) (file : Register) → w.answer t (open_file dir file) ≡ true)
      (writes : (t : Trace) (dir : Dir) (file : Register) (datum : Datum)
        → w.answer t (write dir file datum) ≡ true)
      (value : Bytes) (i : Sysinfo) (known : h.sysinfo ≡ some i) where
    set_limit-swap :
        (t : Trace)
        → (u : Trace) × (set_limit d w h contname swap value t ≡ (true, u))
          × (swap_stored u ≡ some (number (total_swap d i value)))
    unfolding set_limit set_mem_max store_mem write_sys_long open_and_write call swap_stored
        get_sysfs
    set_limit-swap t =
        let n = number (total_swap d i value) in
        let opened : Trace = (open_file (group d w h contname) swap_max, true) ∷ t in
        (
          (write (group d w h contname) swap_max n, true) ∷ opened,
          rw
              (
                known,
                opens t (group d w h contname) swap_max,
                writes opened (group d w h contname) swap_max n,
              )
              refl,
          refl,
        )

    -- When the host's memory is known and the writes succeed, and cgroup_limits returns true with
    -- SWAPMAX set, memory.swap.max holds in the end the part of the host's swap that SWAPMAX asks
    -- for, although the limit on the memory sets it to 0.
    pub cgroup_limits-swap :
        (t : Trace)
        → h.getenv (codes "SWAPMAX") ≡ some value
        → (cgroup_limits d w h contname t).0 ≡ true
        → swap_stored (cgroup_limits d w h contname t).1 ≡ some (number (total_swap d i value))
    unfolding cgroup_limits
    cgroup_limits-swap t asked said =
        let run = set_limits d w h contname in
        let cpus : List (Bytes × Limit) =
          (codes "NUMCPU", numcpu) ∷ (codes "PWRCPU", pwrcpu) ∷ (codes "MAXCPU", maxcpu) ∷ [] in
        let from_swap : List (Bytes × Limit) = (codes "SWAPMAX", swap) ∷ cpus in
        let from_mem : List (Bytes × Limit) = (codes "MEMMAX", mem) ∷ from_swap in
        let (t1, e1) = set_limits_step (codes "PIDMAX") pids from_mem t said in
        let (t2, e2) =
          set_limits_step (codes "MEMMAX") mem from_swap t1 (ap (λ r. r.0) (sym e1) ∙ said) in
        let (t3, e3, stored) = set_limit-swap t2 in
        ap (λ r. swap_stored r.1)
          (e1 ∙ e2 ∙ set_limits_set (codes "SWAPMAX") swap cpus t2 t3 value asked e3)
        ∙ swap_stored-Grows t3 (run cpus t3).1 (set_limits-IsCpu cpus (tt, (tt, (tt, tt))) t3)
        ∙ stored
