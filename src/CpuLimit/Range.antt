-- ===== src/CpuLimit/Range.antt =====
-- What is written to cpu.weight and to cpu.max.
use vzgot.Base.{
  ℕ, ◌*◌, ◌<◌, ◌≤◌, ◌≡◌, ◌⊎◌, inl, inr, refl, ap, ◌∙◌, Bool, true, false, none, some, [], ◌∷◌, ◌++◌,
  append_assoc, ltb, ◌==◌, if◌then◌else◌, Bool-cases, arith,
}
use vzgot.Text.{Bytes, codes}
use vzgot.Pid.{print_number, to_digits}
use vzgot.Sysfs.{
  cpu_weight, cpu_max, text, number, Op, open_file, write, probe, flush, Trace, World, ◌>>◌,
  ignoring, get_sysfs, cgr_containers, call, write_sys_long,
}
use vzgot.Sysfs.Calm.{
  Grows, Grows-trans, Adds, return-Adds, >>-Adds, ignoring-Adds, call-Adds, open_and_write-Adds,
}
use vzgot.CpuLimit.{
  Doubles, Host, max_weight, sample, clamp_weight, consigne, group, set_root_weight, store_weight,
  read_weight, set_cont_weight, store_usage, set_cont_usage,
}

clamp_weight_bounds : (n : ℕ) → (1 ≤ clamp_weight n) × (clamp_weight n ≤ max_weight)
unfolding clamp_weight
clamp_weight_bounds n = ground arith

-- a call of sys_set_cont_weight: what the container gets is in the range of the kernel
abbrev pub IsWeight : Op × Bool → Type 0
IsWeight (open_file dir file, b) = Unit
IsWeight (write dir file datum, b) = Unit
IsWeight (flush dir file (number n), b) = (1 ≤ n) × (n ≤ max_weight)
IsWeight e = ⊥

-- a text for cpu.max: no ceiling, or a quota below what all processors can give
abbrev pub IsQuota : ℕ → Bytes → Type 0
IsQuota numcpu s =
    (s ≡ codes "max 100000\n")
    ⊎ ((q : ℕ) × (s ≡ print_number q ++ codes " 100000\n") × (0 < q) × (q < numcpu * sample))

-- a call of sys_set_cont_usage
abbrev pub IsCeiling : ℕ → Op × Bool → Type 0
IsCeiling numcpu (open_file dir file, b) = Unit
IsCeiling numcpu (probe dir file, b) = Unit
IsCeiling numcpu (flush dir file (text s), b) = IsQuota numcpu s
IsCeiling numcpu e = ⊥

sample_text : print_number sample ++ b'\n' ∷ [] ≡ codes "100000\n"
unfolding print_number to_digits
sample_text = refl

consigne-IsQuota : (numcpu usage : ℕ) → IsQuota numcpu (consigne numcpu usage ++ b'\n' ∷ [])
unfolding consigne
consigne-IsQuota numcpu usage =
    let quota : ℕ = if usage == 0 then 25000 else usage in
    elim (Bool-cases (ltb quota (numcpu * sample))) [
      | inl less ↦ rw less (
          inr (
            quota,
            append_assoc (print_number quota) (b' ' ∷ print_number sample) (b'\n' ∷ [])
                ∙ ap (λ z. print_number quota ++ b' ' ∷ z) sample_text,
            ground arith,
            ground arith,
          ))
      | inr more ↦ rw more (
          inl (
            append_assoc (codes "max ") (print_number sample) (b'\n' ∷ [])
            ∙ ap (λ z. codes "max " ++ z) sample_text))
    ]

module _ (d : Doubles) (w : World) (h : Host) (contname : Bytes) where
  set_root_weight-Adds : Adds IsWeight (set_root_weight d w h contname)
  unfolding set_root_weight write_sys_long
  set_root_weight-Adds =
      elim (h.getenv (codes "CPUWEIGHT"))
        as (λ o. Adds IsWeight (elim o [
          | none ↦ λ t. (true, t)
          | some v ↦ write_sys_long w (get_sysfs cgr_containers) cpu_weight (h.strtoll v).0
        ])) [
          | none ↦ return-Adds IsWeight true
          | some v ↦
              open_and_write-Adds IsWeight w true (get_sysfs cgr_containers) cpu_weight
                (number (h.strtoll v).0) (λ b. tt) (λ b. tt)
        ]

  store_weight-Adds :
      (ratio : d.Double) (r : Bool × ℕ) → Adds IsWeight (store_weight d w h contname ratio r)
  unfolding store_weight
  store_weight-Adds ratio (false, n) = return-Adds IsWeight false
  store_weight-Adds ratio (true, n) =
      let dir = group d w h contname in
      let op = flush dir cpu_weight (number (clamp_weight (d.share n ratio))) in
      ignoring-Adds IsWeight (call w (open_file dir cpu_weight) >> call w op) (λ t. (true, t))
        (>>-Adds IsWeight (call w (open_file dir cpu_weight)) (call w op)
          (call-Adds IsWeight w (open_file dir cpu_weight) (λ b. tt))
          (call-Adds IsWeight w op (λ b. clamp_weight_bounds (d.share n ratio))))
        (return-Adds IsWeight true)

  store_weight_said :
      (ratio : d.Double) (r : Bool × ℕ) (t : Trace)
      → (store_weight d w h contname ratio r t).0 ≡ r.0
  unfolding store_weight
  store_weight_said ratio (false, n) t = refl
  store_weight_said ratio (true, n) t = refl

  -- Whatever the ratio, what sys_set_cont_weight writes to the container's cpu.weight is between 1
  -- and 10000. It returns whether the weight of all containers could be read, also when the
  -- container's own could not be written.
  pub set_cont_weight-IsWeight :
      (ratio : d.Double) (t : Trace)
      → Grows IsWeight t (set_cont_weight d w h contname ratio t).1
        × ((set_cont_weight d w h contname ratio t).0
            ≡ (read_weight d w h contname (set_root_weight d w h contname t).1).0)
  unfolding set_cont_weight
  set_cont_weight-IsWeight ratio t =
      let u = (set_root_weight d w h contname t).1 in
      let r = read_weight d w h contname u in
      (
        Grows-trans t u (store_weight d w h contname ratio r u).1 (set_root_weight-Adds t)
            (store_weight-Adds ratio r u),
        store_weight_said ratio r u,
      )

  store_usage-Adds :
      (ratio : d.Double) (numcpu : ℕ)
      → Adds (IsCeiling numcpu) (store_usage d w h contname ratio numcpu)
  unfolding store_usage
  store_usage-Adds ratio numcpu =
      let dir = group d w h contname in
      let P = IsCeiling numcpu in
      let op = flush dir cpu_max (text (consigne numcpu (d.usage ratio numcpu) ++ b'\n' ∷ [])) in
      >>-Adds P (call w (open_file dir cpu_max)) (ignoring (call w op) (λ t. (true, t)))
        (call-Adds P w (open_file dir cpu_max) (λ b. tt))
        (ignoring-Adds P (call w op) (λ t. (true, t))
          (call-Adds P w op (λ b. consigne-IsQuota numcpu (d.usage ratio numcpu)))
          (return-Adds P true))

  -- Whatever the ratio, sys_set_cont_usage writes to cpu.max either that there is no ceiling or a
  -- quota above 0 that is less than what the container's processors can give in 100 milliseconds.
  pub set_cont_usage-IsCeiling :
      (ratio : d.Double) (numcpu : ℕ) (t : Trace)
      → Grows (IsCeiling numcpu) t (set_cont_usage d w h contname ratio numcpu t).1
  unfolding set_cont_usage
  set_cont_usage-IsCeiling ratio numcpu =
      let P = IsCeiling numcpu in
      >>-Adds P (call w (probe (get_sysfs cgr_containers) cpu_max))
        (if numcpu == 0 then (λ t. (false, t)) else store_usage d w h contname ratio numcpu)
        (call-Adds P w (probe (get_sysfs cgr_containers) cpu_max) (λ b. tt))
        (elim (numcpu == 0)
          as (λ b.
            Adds P (if b then (λ t. (false, t)) else store_usage d w h contname ratio numcpu)) [
              | true ↦ return-Adds P false
              | false ↦ store_usage-Adds ratio numcpu
            ])
