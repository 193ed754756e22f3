-- ===== src/Boot/Clearance.antt =====
-- What the supervisor has done when it lets the container's process go on.
use vzgot.Base.{
  ℕ, zero, suc, ◌≡◌, refl, Bool, true, false, Option, none, some, [], ◌∷◌, ◌==◌, Bool-cases, inl,
  inr, sym, ap, subst, Option-cases,
}
use vzgot.Boot.{
  Op, load_config, dive, locking, reset_flags, script_boot, pipe, openpt, grantpt, unlockpt,
  set_cgroup, set_sup_devices, track_console, clone, set_cont_pid, set_start, move_to_cgroup,
  mapcontids, script_ethup, clearance, script_ethdown, wait_logger, unset_sup_devices, close, Trace,
  World, Supervisor, initial, Out, through, toobad, prepare, confine, supervise, setup, close_sync,
  cleanup, after_setup, release, finish, rounds, lock_and_run, boot, call, log_call,
}
use vzgot.Boot.Chain.{Ends, must-Ends, seq-Ends}

-- The end of a trace at which the container may start. Since the start of the round, in this
-- order: the boot script succeeded, the pipe and the console's terminal were opened, the cgroup
-- limits and the devices were set, the console is tracked, the process was cloned, its pid and
-- start time were written, the move to its cgroup and the id maps were tried, and the network
-- script succeeded.
pub record Cleared (t : Trace) : Type 0 where
  pub reset : Bool
  pub closed : Bool
  pub moved : Bool
  pub mapped : Bool
  pub read_end : Option ℕ
  pub earlier : Trace
  pub shape :
      t
      ≡ (script_ethup, true)
        ∷ (mapcontids, mapped)
        ∷ (move_to_cgroup, moved)
        ∷ (set_start, true)
        ∷ (set_cont_pid, true)
        ∷ (close read_end, closed)
        ∷ (clone, true)
        ∷ (track_console, true)
        ∷ (set_sup_devices, true)
        ∷ (set_cgroup, true)
        ∷ (unlockpt, true)
        ∷ (grantpt, true)
        ∷ (openpt, true)
        ∷ (pipe, true)
        ∷ (script_boot, true)
        ∷ (reset_flags, reset)
        ∷ earlier

-- what has to be true when the call is made
abbrev pub Safe : Op → Trace → Type 0
Safe clearance t = Cleared t
Safe _ t = Unit

-- every clearance in the trace was given at such an end
abbrev pub Guarded : Trace → Type 0
Guarded [] = Unit
Guarded ((op, b) ∷ t) = Safe op t × Guarded t

abbrev IsGuarded : Supervisor → Type 0
IsGuarded s = Guarded s.trace

module _ (w : World) where
  -- the trace behind phase 8
  record Prepared (earlier : Trace) (s : Supervisor) : Type 0 where
    reset : Bool
    closed : Bool
    read_end : Option ℕ
    shape :
        s.trace
        ≡ (close read_end, closed)
          ∷ (clone, true)
          ∷ (track_console, true)
          ∷ (set_sup_devices, true)
          ∷ (set_cgroup, true)
          ∷ (unlockpt, true)
          ∷ (grantpt, true)
          ∷ (openpt, true)
          ∷ (pipe, true)
          ∷ (script_boot, true)
          ∷ (reset_flags, reset)
          ∷ earlier

  prepare-Ends : (s : Supervisor) → IsGuarded s → Ends (Prepared s.trace) IsGuarded (prepare w s)
  unfolding prepare
  prepare-Ends s g =
      let stop = λ (op : Op) (u : Supervisor) (k : Supervisor → Out).
        must-Ends w (Prepared s.trace) IsGuarded op u k in
      stop script_boot _ _ (assumption) (
        stop pipe _ _ (assumption) (
          stop openpt _ _ (assumption) (
            stop grantpt _ _ (assumption) (
              stop unlockpt _ _ (assumption) (
                stop set_cgroup _ _ (assumption) (
                  stop set_sup_devices _ _ (assumption) (
                    stop track_console _ _ (assumption) (
                      stop clone _ _ (assumption)
                        (record { reset = _; closed = _; read_end = _; shape = refl })))))))))

  Guarded-Prepared : {t : Trace} (s : Supervisor) → Guarded t → Prepared t s → IsGuarded s
  Guarded-Prepared s g p = subst Guarded (sym p.shape) (assumption g)

  Cleared-Prepared :
      {t : Trace} (s : Supervisor)
      → Prepared t s
      → (moved mapped : Bool)
      → Cleared (
          (script_ethup, true)
          ∷ (mapcontids, mapped)
          ∷ (move_to_cgroup, moved)
          ∷ (set_start, true)
          ∷ (set_cont_pid, true)
          ∷ s.trace)
  Cleared-Prepared {t} s p moved mapped = record {
    reset = p.reset;
    closed = p.closed;
    moved = moved;
    mapped = mapped;
    read_end = p.read_end;
    earlier = t;
    shape =
        ap
          (λ z.
            (script_ethup, true)
            ∷ (mapcontids, mapped)
            ∷ (move_to_cgroup, moved)
            ∷ (set_start, true)
            ∷ (set_cont_pid, true)
            ∷ z)
          p.shape;
  }

  confine-Ends :
      {t : Trace} (s : Supervisor)
      → Guarded t
      → Prepared t s
      → Ends IsGuarded IsGuarded (confine w s)
  unfolding confine
  confine-Ends s g p =
      let h = Guarded-Prepared s g p in
      must-Ends w IsGuarded IsGuarded set_cont_pid _ _ (assumption) (
        must-Ends w IsGuarded IsGuarded set_start _ _ (assumption) (
          must-Ends w IsGuarded IsGuarded script_ethup _ _ (assumption)
            (tt, (Cleared-Prepared s p _ _, (assumption)))))

  supervise-Ends : (s : Supervisor) → IsGuarded s → Ends IsGuarded IsGuarded (supervise w s)
  unfolding supervise
  supervise-Ends s g = must-Ends w IsGuarded IsGuarded script_ethdown _ _ (assumption) (assumption)

  setup-Guarded : (s : Supervisor) → IsGuarded s → IsGuarded (after_setup w (setup w s))
  unfolding setup
  setup-Guarded s g = out _ (
      seq-Ends w (Prepared s.trace) IsGuarded IsGuarded (prepare w s) _ (prepare-Ends s g) λ t p.
        seq-Ends w IsGuarded IsGuarded IsGuarded (confine w t) _ (confine-Ends t g p)
          supervise-Ends)
    where
      out : (o : Out) → Ends IsGuarded IsGuarded o → IsGuarded (after_setup w o)
      out (through s) h = h
      out (toobad s) h = h

  close_sync-Guarded : (s : Supervisor) → IsGuarded s → IsGuarded (close_sync w s)
  unfolding close_sync
  close_sync-Guarded s g = elim (Option-cases s.sync0) [
    | inl e0 ↦ elim (Option-cases s.sync1) [
      | inl e1 ↦ rw (e0, e1) g
      | inr (y, e1) ↦ rw (e0, e1) (assumption)
    ]
    | inr (x, e0) ↦ rw e0 (assumption)
  ]

  cleanup-Guarded : (s : Supervisor) → IsGuarded s → IsGuarded (cleanup w s)
  unfolding cleanup
  cleanup-Guarded s g =
      let t = call w (close s.slave) s in
      let u = call w wait_logger (call w (close t.master) t) in
      assumption (close_sync-Guarded u (assumption))

  -- whatever comes back is guarded
  abbrev AllGuarded : Option Supervisor → Type 0
  AllGuarded none = Unit
  AllGuarded (some s) = IsGuarded s

  finish-Guarded :
      (again : Supervisor → Option Supervisor) (s : Supervisor)
      → IsGuarded s
      → ((t : Supervisor) → IsGuarded t → AllGuarded (again t))
      → AllGuarded (finish w again s)
  unfolding finish
  finish-Guarded again s g h =
      let c = cleanup-Guarded s g in
      elim (Bool-cases (w.answer (cleanup w s).trace unset_sup_devices)) [
        | inr small ↦ rw small (assumption)
        | inl done ↦ rw done (elim (Bool-cases ((cleanup w s).status == 1)) [
          | inl reboot ↦ rw reboot (h _ (assumption))
          | inr no_reboot ↦ rw no_reboot (elim (Bool-cases ((cleanup w s).status == 2)) [
            | inl off ↦ rw off (unfold release in assumption)
            | inr other ↦ rw other (unfold release in assumption)
          ])
        ])
      ]

  rounds-Guarded : (fuel : ℕ) (s : Supervisor) → IsGuarded s → AllGuarded (rounds w fuel s)
  unfolding rounds
  rounds-Guarded zero s g = tt
  rounds-Guarded (suc fuel) s g = finish-Guarded _ _ (setup-Guarded s g) (rounds-Guarded fuel)

  lock_and_run-Guarded :
      (fuel : ℕ) (s : Supervisor) → IsGuarded s → AllGuarded (lock_and_run w fuel s)
  unfolding lock_and_run
  lock_and_run-Guarded fuel s g = elim (Bool-cases (w.answer (call w dive s).trace locking)) [
    | inl locked ↦ rw locked (rounds-Guarded fuel _ (assumption))
    | inr held ↦ rw held (assumption)
  ]

  -- In every run of the supervisor that ends, reboots included and whatever the calls answer, the
  -- clearance is written to the container only directly behind the network script's success, in a
  -- round in which every step of the setup before it that can stop the boot has succeeded, in
  -- order, and the move to the cgroup and the id maps have been tried.
  pub boot-Guarded : (fuel : ℕ) (s : Supervisor) → boot w fuel ≡ some s → Guarded s.trace
  unfolding boot
  boot-Guarded fuel s e = subst AllGuarded e (elim (Bool-cases (w.answer [] load_config)) [
    | inl loaded ↦ rw loaded (lock_and_run-Guarded fuel _ (assumption))
    | inr missing ↦
        rw missing
          (finish-Guarded _ (log_call load_config false initial) (assumption) (rounds-Guarded fuel))
  ])
