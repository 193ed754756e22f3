-- ===== src/Attend/Modes.antt =====
-- What each kill mode of cont_attend says of the calls before, and that a round keeps it so.
use vzgot.Base.{
  ℕ, zero, suc, ◌≡◌, refl, sym, subst, some, Bool, true, false, ◌||◌, [], ◌∷◌, ◌==◌, if◌then◌else◌,
  Bool-cases, inl, inr, ◌⊎◌, Among, arith,
}
use vzgot.Command
use vzgot.Command.{cont_shutdown}
use vzgot.Command.Sigkill.{KillsLast, cont_shutdown-KillsLast}
use vzgot.Attend.{
  Ready, interrupted, failed, timeout, ready, Event, purged, polled, shutdown, new_status,
  update_status, updateproc, probe_monitor, kill_int, kill_kill, Trace, World, State, did,
  check_signals, on_interrupt, update, duty, on_timeout, round,
}

-- a shutdown was asked for, or the monitoring process was lost
abbrev pub Cause : Trace → Type 0
Cause t = ((calls : Command.Trace) × Among (shutdown calls) t) ⊎ Among (probe_monitor false) t

-- SIGINT was sent at a timeout; since then interrupts at most
pub data Tried : Trace → Type 0 where
  sent : {t : Trace} → Cause t → Tried (kill_int ∷ polled timeout ∷ t)
  later : {t : Trace} → Tried t → Tried (purged ∷ polled interrupted ∷ t)

-- behind a timeout
abbrev pub Timeout : (Trace → Type 0) → Trace → Type 0
Timeout P (polled timeout ∷ t) = P t
Timeout P _ = ⊥

-- behind an interrupt
abbrev pub Interrupted : Trace → Type 0
Interrupted (purged ∷ polled interrupted ∷ t) = Unit
Interrupted _ = ⊥

abbrev pub Safe : Event → Trace → Type 0
Safe (shutdown calls) t = Interrupted t × KillsLast calls
Safe kill_int t = Timeout Cause t
Safe kill_kill t = Timeout Tried t
Safe _ t = Unit

abbrev pub Guarded : Trace → Type 0
Guarded [] = Unit
Guarded (e ∷ t) = Safe e t × Guarded t

-- what each kill mode says of the trace
abbrev pub Fits : ℕ → Trace → Type 0
Fits zero t = Unit
Fits (suc zero) t = Cause t
Fits (suc (suc zero)) t = Tried t
Fits (suc (suc (suc n))) t = Unit

pub record Good (s : State) : Type 0 where
  pub guarded : Guarded s.trace
  pub fits : Fits s.kill_mode s.trace

pub Cause-later : (e : Event) (t : Trace) → Cause t → Cause (e ∷ t)
Cause-later e t (inl (calls, i)) = inl (calls, inr i)
Cause-later e t (inr i) = inr (inr i)

module _ (w : World) where
  pub on_interrupt-Good :
      (s : State)
      → Guarded s.trace
      → Fits s.kill_mode s.trace
      → Good (on_interrupt w (did (polled interrupted) s))
  unfolding on_interrupt check_signals
  on_interrupt-Good s g f =
      let v = check_signals w (did (polled interrupted) s) in
      let asked = (v.latch.flags.sigterm || v.latch.flags.sigint) || v.latch.flags.sighup in
      elim (Bool-cases asked) [
        | inl stop ↦
            let fair = cont_shutdown-KillsLast (w.command v.trace) (some w.contname) in
            rw stop (record { guarded = ((tt, fair), (tt, (tt, g))); fits = inl (_, inl refl) })
        | inr go ↦ rw go (record { guarded = assumption; fits = kept s.kill_mode f })
      ]
    where
      kept : (mode : ℕ) → Fits mode s.trace → Fits mode (purged ∷ polled interrupted ∷ s.trace)
      kept zero f = tt
      kept (suc zero) f =
          Cause-later purged (polled interrupted ∷ s.trace)
            (Cause-later (polled interrupted) s.trace f)
      kept (suc (suc zero)) f = later f
      kept (suc (suc (suc n))) f = tt

  pub update-Guarded : (s : State) → Guarded s.trace → Guarded (update w s)
  unfolding update
  update-Guarded s g = go s.has_stat
    where
      last :
          (b : Bool) (t : Trace)
          → Guarded t
          → Guarded (if b then updateproc ∷ update_status b ∷ t else update_status b ∷ t)
      last true t g = assumption
      last false t g = assumption

      go :
          (has : Bool)
          → (let t = if has then s.trace else new_status ∷ s.trace in
              let b = w.updates t in
              Guarded (if b then updateproc ∷ update_status b ∷ t else update_status b ∷ t))
      go true = last (w.updates s.trace) s.trace g
      go false = last (w.updates (new_status ∷ s.trace)) (new_status ∷ s.trace) (assumption)

  pub duty-Good : (s : State) → Guarded s.trace → s.kill_mode ≡ 0 → Good (duty w s)
  unfolding duty
  duty-Good s g mode =
      let h = update-Guarded s g in
      elim (Bool-cases (w.monitor_lives (update w s))) [
        | inl lives ↦ rw lives (record {
          guarded = assumption;
          fits = subst (λ m. Fits m (probe_monitor true ∷ update w s)) (sym mode) tt;
        })
        | inr lost ↦ rw lost (record { guarded = assumption; fits = inr (inl refl) })
      ]

  pub on_timeout-Good :
      (s : State)
      → Guarded s.trace
      → Fits s.kill_mode s.trace
      → Good (on_timeout w (did (polled timeout) s)).1
  unfolding on_timeout
  on_timeout-Good s g f = go s.kill_mode refl f
    where
      go :
          (mode : ℕ)
          → s.kill_mode ≡ mode
          → Fits mode s.trace
          → Good (on_timeout w (did (polled timeout) s)).1
      go zero e f =
          let is0 : (s.kill_mode == 0) ≡ true = ground arith in
          rw is0 (duty-Good (did (polled timeout) s) (assumption) e)
      go (suc zero) e f = rw e (record { guarded = assumption; fits = sent f })
      go (suc (suc zero)) e f = rw e (record { guarded = assumption; fits = tt })
      go (suc (suc (suc n))) e f =
          let not0 : (s.kill_mode == 0) ≡ false = ground arith in
          let not1 : (s.kill_mode == 1) ≡ false = ground arith in
          let not2 : (s.kill_mode == 2) ≡ false = ground arith in
          rw (not0, not1, not2)
            (record {
              guarded = assumption;
              fits = subst (λ m. Fits m (polled timeout ∷ s.trace)) (sym e) tt;
            })

  pub round-Good :
      (r : Ready) (s : State)
      → Guarded s.trace
      → Fits s.kill_mode s.trace
      → (b : Bool) → (round w r (did (polled r) s)).0 ≡ b
      → (if b
          then Good (round w r (did (polled r) s)).1
          else Guarded (round w r (did (polled r) s)).1.trace)
  unfolding round
  round-Good interrupted s g f true e = on_interrupt-Good s g f
  round-Good interrupted s g f false e = cc
  round-Good failed s g f true e = cc
  round-Good failed s g f false e = assumption
  round-Good ready s g f true e = cc
  round-Good ready s g f false e = assumption
  round-Good timeout s g f true e = on_timeout-Good s g f
  round-Good timeout s g f false e = (on_timeout-Good s g f).guarded
