-- ===== src/Boot/Ending.antt =====
-- How a run of the supervisor ends: the status that it returns, the rounds that it takes, and the
-- last calls that it makes.
use vzgot.Base.{
  ℕ, zero, suc, ◌≡◌, ◌≢◌, refl, true, false, Option, none, some, [], ◌∷◌, arith, ◌==◌, Bool-cases,
  inl, inr, subst, Option-cases,
}
use vzgot.Boot.{
  Op, load_config, dive, locking, script_boot, unset_sup_devices, unlocking, Trace, World,
  Supervisor, initial, Out, through, toobad, setup, close_sync, cleanup, after_setup, release,
  finish, rounds, lock_and_run, boot, call, log_call, prepare, confine, supervise, pipe, openpt,
  grantpt, unlockpt, set_cgroup, set_sup_devices, track_console, clone, set_cont_pid, set_start,
  script_ethup, script_ethdown,
}
use vzgot.Boot.Chain.{Ends, must-Ends, seq-Ends}

-- the last call of a run, with the status: the call that releases the lock, whose answer is only
-- logged, the failure to unmount the devices that skips it, or the refusal of the lock
abbrev pub EndsWell : Trace → ℕ → Type 0
EndsWell [] status = ⊥
EndsWell ((unlocking, b) ∷ t) status = (status ≢ 1) × (status ≢ 2)
EndsWell ((unset_sup_devices, b) ∷ t) status = b ≡ false
EndsWell ((locking, b) ∷ t) status = (b ≡ false) × (status ≡ 1)
EndsWell _ status = ⊥

module _ (w : World) where
  abbrev AllEndWell : Option Supervisor → Type 0
  AllEndWell none = Unit
  AllEndWell (some s) = EndsWell s.trace s.status

  finish-EndsWell :
      (again : Supervisor → Option Supervisor) (s : Supervisor)
      → ((t : Supervisor) → AllEndWell (again t))
      → AllEndWell (finish w again s)
  unfolding finish
  finish-EndsWell again s h = elim (Bool-cases (w.answer (cleanup w s).trace unset_sup_devices)) [
    | inr small ↦ rw small refl
    | inl done ↦ rw done (elim (Bool-cases ((cleanup w s).status == 1)) [
      | inl reboot ↦ rw reboot (h _)
      | inr no_reboot ↦ rw no_reboot (elim (Bool-cases ((cleanup w s).status == 2)) [
        | inl off ↦ rw off (unfold release in (λ e. omega arith, λ e. omega arith))
        | inr other ↦ rw other (unfold release in (λ e. ground arith, λ e. ground arith))
      ])
    ])
  ]

  rounds-EndsWell : (fuel : ℕ) (s : Supervisor) → AllEndWell (rounds w fuel s)
  unfolding rounds
  rounds-EndsWell zero s = tt
  rounds-EndsWell (suc fuel) s = finish-EndsWell _ _ (rounds-EndsWell fuel)

  -- The last call of a run that ends is one of three: the one that releases the lock, whose
  -- failure is only logged, and the status is then neither 1, for a reboot, nor 2; the unmounting of
  -- the devices, which has failed; or the one that takes the lock, which was refused, with
  -- status 1.
  pub boot-EndsWell : (fuel : ℕ) (s : Supervisor) → boot w fuel ≡ some s → EndsWell s.trace s.status
  unfolding boot
  boot-EndsWell fuel s e = subst AllEndWell e (elim (Bool-cases (w.answer [] load_config)) [
    | inl loaded ↦ rw loaded (
        unfold lock_and_run in
        (elim (Bool-cases
          (w.answer (call w dive (log_call load_config true initial)).trace locking)) [
            | inl free ↦ rw free (rounds-EndsWell fuel _)
            | inr held ↦ rw held (refl, refl)
          ]))
    | inr missing ↦
        rw missing (finish-EndsWell _ (log_call load_config false initial) (rounds-EndsWell fuel))
  ])

  -- the cleanup leaves the status alone
  pub status-cleanup : (s : Supervisor) → (cleanup w s).status ≡ s.status
  unfolding cleanup close_sync
  status-cleanup s = elim (Option-cases s.sync0) [
    | inl e0 ↦ elim (Option-cases s.sync1) [ inl e1 ↦ rw (e0, e1) | inr (y, e1) ↦ rw (e0, e1) ]
    | inr (x, e0) ↦ rw e0
  ]

  module _ (no_reboot : (t : Trace) → w.exit_status t ≢ 1) where
    abbrev Keeps : Supervisor → Type 0
    Keeps s = s.status ≢ 1

    -- no call of the setup but `attend` changes the status
    prepare-Keeps : (s : Supervisor) → Keeps s → Ends Keeps Keeps (prepare w s)
    unfolding prepare
    prepare-Keeps s h =
        let stop =
          λ (op : Op) (u : Supervisor) (k : Supervisor → Out). must-Ends w Keeps Keeps op u k in
        stop script_boot _ _ h (
          stop pipe _ _ h (
            stop openpt _ _ h (
              stop grantpt _ _ h (
                stop unlockpt _ _ h (
                  stop set_cgroup _ _ h (
                    stop set_sup_devices _ _ h (stop track_console _ _ h (stop clone _ _ h h))))))))

    confine-Keeps : (s : Supervisor) → Keeps s → Ends Keeps Keeps (confine w s)
    unfolding confine
    confine-Keeps s h =
        must-Ends w Keeps Keeps set_cont_pid _ _ h
          (must-Ends w Keeps Keeps set_start _ _ h (must-Ends w Keeps Keeps script_ethup _ _ h h))

    supervise-Keeps : (s : Supervisor) → Ends Keeps Keeps (supervise w s)
    unfolding supervise
    supervise-Keeps s = must-Ends w Keeps Keeps script_ethdown _ _ (no_reboot _) (no_reboot _)

    setup-status : (s : Supervisor) → Keeps s → Keeps (after_setup w (setup w s))
    unfolding setup
    setup-status s h = out _ (
        seq-Ends w Keeps Keeps Keeps (prepare w s) _ (prepare-Keeps s h) λ t p.
          seq-Ends w Keeps Keeps Keeps (confine w t) _ (confine-Keeps t p) λ u _. supervise-Keeps u)
      where
        out : (o : Out) → Ends Keeps Keeps o → Keeps (after_setup w o)
        out (through s) h = h
        out (toobad s) h = h

    finish-total :
        (again : Supervisor → Option Supervisor) (s : Supervisor)
        → Keeps s
        → (t : Supervisor) × (finish w again s ≡ some t)
    unfolding finish
    finish-total again s h =
        let e : ((cleanup w s).status == 1) ≡ false = ground (arith, status-cleanup s) in
        elim (Bool-cases (w.answer (cleanup w s).trace unset_sup_devices)) [
          | inr small ↦ rw small (_, refl)
          | inl done ↦
              rw (done, e)
                (elim (Bool-cases ((cleanup w s).status == 2)) [
                  | inl off ↦ rw off (_, refl)
                  | inr other ↦ rw other (_, refl)
                ])
        ]

    -- If no reboot is asked for, boot returns within one round, whatever fails in it.
    pub boot-total : (fuel : ℕ) → (s : Supervisor) × (boot w (suc fuel) ≡ some s)
    unfolding boot lock_and_run rounds
    boot-total fuel = elim (Bool-cases (w.answer [] load_config)) [
      | inl loaded ↦
          let start = call w dive (log_call load_config true initial) in
          rw loaded (elim (Bool-cases (w.answer start.trace locking)) [
            | inl free ↦
                let s = log_call Op.locking true start in
                rw free (
                  finish-total (rounds w fuel) (after_setup w (setup w s))
                    (setup-status s (λ e. omega arith)))
            | inr held ↦ rw held (_, refl)
          ])
      | inr missing ↦ rw missing (
          finish-total (rounds w (suc fuel)) (log_call load_config false initial)
            (λ e. omega arith))
    ]
