-- ===== src/Boot/Failure.antt =====
-- What the supervisor does when a phase fails.
use vzgot.Base.{
  ℕ, zero, suc, ◌≡◌, refl, Bool, true, false, Option, none, some, List, [], ◌∷◌, map, ap, ◌∙◌,
}
use vzgot.Boot.{
  Op, load_config, dive, locking, reset_flags, script_boot, unset_sup_devices, unlocking,
  clean_containers, clean_supervisors, leave_cgroup, wait_logger, close, Trace, World, Supervisor,
  initial, prepare, setup, cleanup, after_setup, release, finish, rounds, lock_and_run, boot, call,
  log_call, toobad, confine, supervise, ◌>>◌,
}
use vzgot.Boot.Ending.{status-cleanup}
use vzgot.Boot.Chain.{must_fails}

-- the calls of a trace, newest first, without their answers
abbrev pub ops : Trace → List Op
ops = map (λ e. e.0)

module _ (w : World) where
  -- If the configuration cannot be loaded and the devices can be unmounted, boot returns 0, and
  -- these are all its calls, newest first: it kills what runs in the container's cgroups and
  -- releases the lock, which it has never taken.
  pub boot_no_config :
      (fuel : ℕ)
      → w.answer [] load_config ≡ false
      → ((t : Trace) → w.answer t unset_sup_devices ≡ true)
      → (s : Supervisor) × (boot w fuel ≡ some s)
        × (s.status ≡ 0)
        × (ops s.trace
            ≡ unlocking
              ∷ unset_sup_devices
              ∷ clean_supervisors
              ∷ clean_containers
              ∷ leave_cgroup
              ∷ close (some 0)
              ∷ wait_logger
              ∷ close none
              ∷ close (some 0)
              ∷ load_config
              ∷ [])
  unfolding boot
  boot_no_config fuel missing umount = rw (missing, umount) (_, refl, refl, refl)

  -- the state in which the rounds start, if the configuration and the lock were had
  abbrev pub locked : Supervisor
  locked = log_call locking true (call w dive (log_call load_config true initial))

  boot-locked :
      (fuel : ℕ)
      → w.answer [] load_config ≡ true
      → w.answer (call w dive (log_call load_config true initial)).trace locking ≡ true
      → boot w fuel ≡ rounds w fuel locked
  unfolding boot lock_and_run
  boot-locked fuel loaded free = rw loaded (rw free)

  prepare_no_script :
      (s : Supervisor)
      → w.answer ((reset_flags, w.answer s.trace reset_flags) ∷ s.trace) script_boot ≡ false
      → prepare w s ≡ toobad (log_call script_boot false (call w reset_flags s))
  unfolding prepare
  prepare_no_script s h = must_fails w script_boot (call w reset_flags s) _ h

  -- a setup whose boot script fails
  setup_no_script :
      (s : Supervisor)
      → w.answer ((reset_flags, w.answer s.trace reset_flags) ∷ s.trace) script_boot ≡ false
      → after_setup w (setup w s) ≡ log_call script_boot false (call w reset_flags s)
  unfolding setup
  setup_no_script s h =
      ap (λ o. after_setup w (◌>>◌ (λ _. o) (confine w >> supervise w) s)) (prepare_no_script s h)

  module _ (umount : (t : Trace) → w.answer t unset_sup_devices ≡ true) where
    -- a round that leaves status 1 is followed by another one
    finish_again :
        (again : Supervisor → Option Supervisor) (s : Supervisor)
        → s.status ≡ 1
        → finish w again s ≡ again (log_call unset_sup_devices true (cleanup w s))
    unfolding finish
    finish_again again s h = rw (umount, status-cleanup w s, h)

    module _
        (script_fails : (b : Bool) (t : Trace)
          → w.answer ((reset_flags, b) ∷ (unset_sup_devices, true) ∷ t) script_boot ≡ false) where
      rounds_stuck :
          (fuel : ℕ) (s : Supervisor) (t : Trace)
          → s.status ≡ 1
          → s.trace ≡ (unset_sup_devices, true) ∷ t
          → rounds w fuel s ≡ none
      unfolding rounds
      rounds_stuck zero s t h e = refl
      rounds_stuck (suc fuel) s t h e =
          let fails : w.answer ((reset_flags, w.answer s.trace reset_flags) ∷ s.trace) script_boot
              ≡ false =
            ap (λ z. w.answer ((reset_flags, w.answer s.trace reset_flags) ∷ z) script_boot) e
            ∙ script_fails _ t in
          let u = log_call script_boot false (call w reset_flags s) in
          rw (setup_no_script s fails) (
            finish_again _ u h
            ∙ rounds_stuck fuel (log_call unset_sup_devices true (cleanup w u)) (cleanup w u).trace
                (status-cleanup w u ∙ h) refl)

      -- Once the container has asked for a reboot and the boot script fails in each round that a
      -- reboot starts, boot never returns, while the devices can be unmounted: the status 1 of
      -- the last exit is kept, so each failed round asks for another.
      pub boot_livelock :
          w.answer [] load_config ≡ true
          → w.answer (call w dive (log_call load_config true initial)).trace locking ≡ true
          → (after_setup w (setup w locked)).status ≡ 1
          → (fuel : ℕ) → boot w fuel ≡ none
      boot_livelock loaded free reboot fuel = boot-locked fuel loaded free ∙ go fuel
        where
          go : (n : ℕ) → rounds w n locked ≡ none
          go zero = unfold rounds in refl
          go (suc n) =
              let u = after_setup w (setup w locked) in
              unfold rounds in
              (finish_again _ u reboot
                ∙ rounds_stuck n (log_call unset_sup_devices true (cleanup w u)) (cleanup w u).trace
                    (status-cleanup w u ∙ reboot) refl)

    -- If the configuration loads, the lock is had, the devices can be unmounted, and the boot
    -- script of the first round fails, boot returns with status 0, after this one round.
    pub boot_script_silent :
        (fuel : ℕ)
        → w.answer [] load_config ≡ true
        → w.answer (call w dive (log_call load_config true initial)).trace locking ≡ true
        → w.answer (call w reset_flags locked).trace script_boot ≡ false
        → (s : Supervisor) × (boot w (suc fuel) ≡ some s) × (s.status ≡ 0)
    boot_script_silent fuel loaded free fails = rw (boot-locked (suc fuel) loaded free) (
        unfold rounds in
        rw (setup_no_script locked fails) (
          unfold finish release in
          let u = log_call script_boot false (call w reset_flags locked) in
          rw (umount, status-cleanup w u) (_, refl, refl)))
