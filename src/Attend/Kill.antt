-- ===== src/Attend/Kill.antt =====
-- How cont_attend stops its container: why and after what it sends SIGINT and SIGKILL.
use vzgot.Base.{
  ℕ, zero, suc, ◌≡◌, refl, sym, subst, Bool, true, false, Option, none, some, ltb, if◌then◌else◌,
  Bool-cases, inl, inr,
}
use vzgot.Signal.{Latch}
use vzgot.Attend.{
  slept, monitor, pidfd_open, polled, close_pidfd, Trace, World, State, did, check_signals,
  find_monitor, round, attend_loop, wait_container, forget, answer, conclude, watch, cont_attend,
}
use vzgot.Attend.Modes.{Guarded, Fits, Good, round-Good}

abbrev Held : Option State → Type 0
Held none = Unit
Held (some s) = Guarded s.trace

-- where the code returns, `P` holds of its status and of the state
abbrev pub Returned : (ℕ → State → Type 0) → Option (ℕ × State) → Type 0
Returned P none = Unit
Returned P (some (status, s)) = P status s

module _ (w : World) where
  attend_loop-Guarded :
      (fuel : ℕ) (s u : State)
      → Guarded s.trace
      → Fits s.kill_mode s.trace
      → attend_loop w fuel s ≡ some u
      → Guarded u.trace
  unfolding attend_loop
  attend_loop-Guarded zero s u g f e = absurd (cc)
  attend_loop-Guarded (suc fuel) s u g f e =
      let r = w.polls s.trace in
      let x = round w r (did (polled r) s) in
      let next = λ (b : Bool) (h : x.0 ≡ b).
        subst (λ c. (if c then attend_loop w fuel x.1 else some x.1) ≡ some u) h e in
      elim (Bool-cases x.0) [
        | inl h ↦
            let good : Good x.1 = round-Good w r s g f true h in
            attend_loop-Guarded fuel x.1 u good.guarded good.fits (next true h)
        | inr h ↦
            let last : Guarded x.1.trace = round-Good w r s g f false h in
            subst Held (next false h) last
      ]

  find_monitor-Guarded :
      (i : ℕ) (s : State) → Guarded s.trace → Guarded (find_monitor w i s).1.trace
  unfolding find_monitor check_signals
  find_monitor-Guarded zero s g = g
  find_monitor-Guarded (suc i) s g =
      let u = check_signals w (did slept s) in
      elim (Bool-cases (w.has_monitor u.trace)) [
        | inl found ↦ rw found (assumption)
        | inr more ↦ rw more (find_monitor-Guarded i (did (monitor false) u) (assumption))
      ]

  wait_container-Guarded : (s : State) → Guarded s.trace → Guarded (wait_container w s).1.trace
  unfolding wait_container
  wait_container-Guarded s g = elim (Bool-cases (ltb s.kill_mode 3)) [
    | inl alive ↦ rw alive (assumption)
    | inr killed ↦ rw killed g
  ]

  conclude-Guarded :
      (r : Option State)
      → ((u : State) → r ≡ some u → Guarded u.trace)
      → Returned (λ _ v. Guarded v.trace) (conclude w r)
  unfolding conclude forget answer
  conclude-Guarded none h = tt
  conclude-Guarded (some u) h =
      let g = h u refl in
      let x = wait_container-Guarded (did close_pidfd u) (assumption) in assumption

  watch-Guarded :
      (fuel : ℕ) (s : State)
      → Guarded s.trace
      → s.kill_mode ≡ 0
      → Returned (λ _ v. Guarded v.trace) (watch w fuel s)
  unfolding watch check_signals
  watch-Guarded fuel s g mode =
      let u = check_signals w s in
      let f : Fits u.kill_mode u.trace = subst (λ m. Fits m u.trace) (sym mode) tt in
      conclude-Guarded (attend_loop w fuel u)
        λ v over. attend_loop-Guarded fuel u v (assumption) f over

  find_monitor-kill_mode : (i : ℕ) (s : State) → (find_monitor w i s).1.kill_mode ≡ s.kill_mode
  unfolding find_monitor check_signals
  find_monitor-kill_mode zero s = refl
  find_monitor-kill_mode (suc i) s =
      let u = check_signals w (did slept s) in
      elim (Bool-cases (w.has_monitor u.trace)) [
        | inl found ↦ rw found refl
        | inr more ↦ rw more (find_monitor-kill_mode i (did (monitor false) u))
      ]

  -- When cont_attend returns, behind calls of which this holds: it called cont_shutdown only at an
  -- interrupt of the poll, and cont_shutdown sent SIGKILL once at most, as its last call, to the
  -- process of the container's pid file, which is neither 0 nor 1. It sent SIGINT to the
  -- container itself only at a timeout of the poll, after a call of cont_shutdown or after the
  -- monitoring process had been found lost. It sent SIGKILL itself only at a timeout, after it had
  -- sent SIGINT at an earlier timeout and only interrupts had come in between. `Guarded` states
  -- this of every such call of the trace.
  pub cont_attend-Guarded :
      (fuel : ℕ) (latch : Latch) (t : Trace)
      → Guarded t
      → Returned (λ _ s. Guarded s.trace) (cont_attend w fuel latch t)
  unfolding cont_attend answer
  cont_attend-Guarded fuel latch t g =
      let s : State = record {
        latch = latch;
        kill_mode = 0;
        sleep_ms = 5000;
        has_stat = false;
        trace = t;
      } in
      let r = find_monitor w 5 s in
      let h = find_monitor-Guarded 5 s g in
      let m = find_monitor-kill_mode 5 s in
      elim (Bool-cases r.0) [
        | inr lost ↦ rw lost h
        | inl found ↦ rw found (elim (Bool-cases (w.opens r.1.trace)) [
          | inr failed_ ↦ rw failed_ (assumption)
          | inl open_ ↦ rw open_ (watch-Guarded fuel (did (pidfd_open true) r.1) (assumption) m)
        ])
      ]
