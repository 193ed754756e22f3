-- ===== src/Command/Shutdown.antt =====
-- What cont_shutdown does to the container, how long it takes, and what its status means.
use vzgot.Base.{
  ℕ, zero, suc, ◌+◌, ◌≤◌, ◌≡◌, ◌≢◌, refl, sym, subst, false, not, Option, none, some, List, [], ◌∷◌,
  ◌==◌, ltb, if◌then◌else◌, Bool-cases, inl, inr, arith,
}
use vzgot.Text.{Bytes}
use vzgot.Command.{
  loadconfig, get_cont_pid, slept, counted, sigkill, Trace, World, poweroff, no_name, exec_in,
  vzexec, full_stop, wait_stop, power_off, cont_shutdown,
}

-- the number of seconds slept
unfoldable pub sleeps : Trace → ℕ
sleeps [] = 0
sleeps (slept ∷ t) = suc (sleeps t)
sleeps (_ ∷ t) = sleeps t

-- the poweroff command was taken, and the process is killed
pub record Stopped (pid : ℕ) (r : ℕ × Trace) : Type 0 where
  pub status : r.0 ≡ 0
  pub earlier : Trace
  pub killed : r.1 ≡ sigkill pid ∷ earlier

module _ (w : World) where
  exec_in-sleeps : (args : List Bytes) (t : Trace) → sleeps (exec_in w args t).1 ≡ sleeps t
  unfolding exec_in sleeps
  exec_in-sleeps args t = elim (Bool-cases (w.pids t == 0)) [
    | inl lost ↦ rw lost refl
    | inr found ↦ rw found (elim (Bool-cases (w.injects (get_cont_pid (w.pids t) ∷ t))) [
      | inl ok ↦ rw ok refl
      | inr bad ↦ rw bad refl
    ])
  ]

  vzexec-sleeps :
      (contname : Option Bytes) (args : List Bytes) (t : Trace)
      → sleeps (vzexec w contname args t).1 ≡ sleeps t
  unfolding vzexec sleeps
  vzexec-sleeps contname args t = elim (Bool-cases (no_name contname)) [
    | inl none_ ↦ rw none_ refl
    | inr named ↦ rw named (elim (Bool-cases (w.loads t contname)) [
      | inl ok ↦ rw ok (exec_in-sleeps args _)
      | inr bad ↦ rw bad refl
    ])
  ]

  full_stop-sleeps : (i status : ℕ) (t : Trace) → sleeps (full_stop w i status t).1 ≤ i + sleeps t
  unfolding full_stop sleeps
  full_stop-sleeps zero status t = omega arith
  full_stop-sleeps (suc i) status t =
      let r = w.counts t in let h = full_stop-sleeps i status (slept ∷ counted r ∷ t) in go r _ h
    where
      go :
          (r : Option ℕ) (rest : ℕ × Trace)
          → sleeps rest.1 ≤ i + suc (sleeps t)
          → sleeps
              (elim r as (λ _. ℕ × Trace) [
                | none ↦ (status, counted r ∷ t)
                | some remaining ↦ if ltb remaining 2 then (0, counted r ∷ t) else rest
              ]).1
            ≤ suc i + sleeps t
      go none rest h = omega arith
      go (some remaining) rest h = elim (Bool-cases (ltb remaining 2)) [
        | inl few ↦ rw few (omega arith)
        | inr many ↦ rw many (omega arith)
      ]

  full_stop-zero : (i : ℕ) (t : Trace) → (full_stop w i 0 t).0 ≡ 0
  unfolding full_stop
  full_stop-zero zero t = refl
  full_stop-zero (suc i) t = go (w.counts t) _ (full_stop-zero i (slept ∷ counted (w.counts t) ∷ t))
    where
      go :
          (r : Option ℕ) (rest : ℕ × Trace)
          → rest.0 ≡ 0
          → (elim r as (λ _. ℕ × Trace) [
            | none ↦ (0, counted r ∷ t)
            | some remaining ↦ if ltb remaining 2 then (0, counted r ∷ t) else rest
          ]).0
            ≡ 0
      go none rest h = refl
      go (some remaining) rest h = elim (Bool-cases (ltb remaining 2)) [
        | inl few ↦ rw few refl
        | inr many ↦ rw many h
      ]

  wait_stop-sleeps :
      (cntpid status : ℕ) (t : Trace) → sleeps (wait_stop w cntpid status t).1 ≤ 16 + sleeps t
  unfolding wait_stop sleeps
  wait_stop-sleeps cntpid status t =
      let h = full_stop-sleeps 15 status (slept ∷ t) in
      elim (Bool-cases (cntpid == 1)) [
        | inl init ↦ rw init (omega arith)
        | inr other ↦ rw other (omega arith)
      ]

  wait_stop-Stopped :
      (cntpid : ℕ) (t : Trace) → cntpid ≢ 1 → Stopped cntpid (wait_stop w cntpid 0 t)
  unfolding wait_stop
  wait_stop-Stopped cntpid t not_init =
      let other : (cntpid == 1) ≡ false = ground arith in
      rw other (record { status = full_stop-zero 15 (slept ∷ t); earlier = _; killed = refl })

  power_off-Stopped :
      (contname : Option Bytes) (cntpid : ℕ) (t : Trace)
      → cntpid ≢ 1
      → (power_off w contname cntpid t).0 ≡ 0
      → Stopped cntpid (power_off w contname cntpid t)
  unfolding power_off
  power_off-Stopped contname cntpid t not_init =
      let r = vzexec w contname poweroff t in
      elim (Bool-cases (r.0 == 0)) [
        | inl done ↦
            let zero_ : r.0 ≡ 0 = ground arith in
            rw done (λ h.
              subst (λ x. Stopped cntpid (wait_stop w cntpid x r.1)) (sym zero_)
                (wait_stop-Stopped cntpid r.1 not_init))
        | inr bad ↦ rw bad (λ h. absurd (ground arith))
      ]

  -- If cont_shutdown answers 0 and the process that it found for the container is not process 1,
  -- then the last thing it did was to send that process SIGKILL.
  pub cont_shutdown-Stopped :
      (contname : Option Bytes) (t : Trace)
      → w.pids (loadconfig contname (w.loads t contname) ∷ t) ≢ 1
      → (cont_shutdown w contname t).0 ≡ 0
      → Stopped (w.pids (loadconfig contname (w.loads t contname) ∷ t)) (cont_shutdown w contname t)
  unfolding cont_shutdown
  cont_shutdown-Stopped contname t not_init =
      let u = loadconfig contname (w.loads t contname) ∷ t in
      let pid = w.pids u in
      elim (Bool-cases (not (w.loads t contname))) [
        | inl bad ↦ rw bad (λ h. absurd (omega arith))
        | inr ok ↦ rw ok (elim (Bool-cases (pid == 0)) [
          | inl lost ↦ rw lost (λ h. absurd (omega arith))
          | inr found ↦ rw found (power_off-Stopped contname pid (get_cont_pid pid ∷ u) not_init)
        ])
      ]

  power_off-sleeps :
      (contname : Option Bytes) (cntpid : ℕ) (t : Trace)
      → sleeps (power_off w contname cntpid t).1 ≤ 16 + sleeps t
  unfolding power_off sleeps
  power_off-sleeps contname cntpid t =
      let r = vzexec w contname poweroff t in
      let e = vzexec-sleeps contname poweroff t in
      let h = wait_stop-sleeps cntpid r.0 r.1 in
      elim (Bool-cases (r.0 == 0)) [
        | inl done ↦ rw done (omega arith)
        | inr bad ↦ rw bad (omega arith)
      ]

  -- cont_shutdown sleeps at most sixteen seconds.
  pub cont_shutdown-sleeps :
      (contname : Option Bytes) (t : Trace) → sleeps (cont_shutdown w contname t).1 ≤ 16 + sleeps t
  unfolding cont_shutdown sleeps
  cont_shutdown-sleeps contname t =
      let u = loadconfig contname (w.loads t contname) ∷ t in
      let pid = w.pids u in
      let h = power_off-sleeps contname pid (get_cont_pid pid ∷ u) in
      elim (Bool-cases (not (w.loads t contname))) [
        | inl bad ↦ rw bad (omega arith)
        | inr ok ↦ rw ok (elim (Bool-cases (pid == 0)) [
          | inl lost ↦ rw lost (omega arith)
          | inr found ↦ rw found (omega arith)
        ])
      ]
