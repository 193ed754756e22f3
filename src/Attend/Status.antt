-- ===== src/Attend/Status.antt =====
-- What cont_attend answers, and that it comes to an end.
use vzgot.Base.{
  ℕ, ◌≡◌, ◌==◌, ◌≢◌, refl, sym, ap, subst, true, false, Option, none, some, ltb, if◌then◌else◌,
  Bool-cases, inl, inr, ◌⊎◌, ◌∙◌, Among, arith,
}
use vzgot.Signal.{Latch}
use vzgot.Attend.{
  Waited, wait_failed, not_exited, exited, signaled, pidfd_open, close_pidfd, waited, Trace, World,
  State, did, check_signals, find_monitor, attend_loop, status_of, wait_container, forget, answer,
  conclude, watch, cont_attend,
}
use vzgot.Attend.Kill.{Returned}

-- the supervisor took a SIGHUP, or waitpid told of an end by signal 1
abbrev pub Reboot : State → Type 0
Reboot s = (s.latch.flags.sighup ≡ true) ⊎ Among (waited (signaled 1)) s.trace

-- status 1 for a reboot, and always for a SIGHUP
abbrev pub Tells : ℕ → State → Type 0
Tells status s = ((status ≢ 1) ⊎ Reboot s) × ((s.latch.flags.sighup ≡ false) ⊎ (status ≡ 1))

status_of-signaled : (r : Waited) → status_of r ≡ 1 → r ≡ signaled 1
unfolding status_of
status_of-signaled wait_failed e = absurd (omega arith)
status_of-signaled not_exited e = absurd (omega arith)
status_of-signaled (exited code) e = absurd (omega arith)
status_of-signaled (signaled sig) e = ap signaled e

module _ (w : World) where
  answer-Tells :
      (status : ℕ) (s : State)
      → (status ≡ 1 → Among (waited (signaled 1)) s.trace)
      → Tells (answer (status, s)).0 (answer (status, s)).1
  unfolding answer
  answer-Tells status s h = elim (Bool-cases s.latch.flags.sighup) [
    | inl up ↦ rw up (inr (inl refl), inr refl)
    | inr down ↦ rw down (elim (Bool-cases (status == 1)) [
      | inl one ↦ (inr (inr (h (ground arith))), inl refl)
      | inr other ↦ (inl (λ e. ground arith), inl refl)
    ])
  ]

  wait_container-status :
      (s : State)
      → (if ltb s.kill_mode 3 then status_of (w.waits s.trace) else 0) ≡ (wait_container w s).0
  unfolding wait_container
  wait_container-status s = elim (Bool-cases (ltb s.kill_mode 3)) [
    | inl alive ↦ rw alive refl
    | inr killed ↦ rw killed refl
  ]

  wait_container-Among :
      (s : State)
      → (wait_container w s).0 ≡ 1
      → Among (waited (signaled 1)) (wait_container w s).1.trace
  unfolding wait_container
  wait_container-Among s e = elim (Bool-cases (ltb s.kill_mode 3)) [
    | inl alive ↦
        let e' : status_of (w.waits s.trace) ≡ 1 =
          subst (λ b. (if b then status_of (w.waits s.trace) else 0) ≡ 1) alive
            (wait_container-status s ∙ e) in
        rw alive (inl (ap waited (sym (status_of-signaled (w.waits s.trace) e'))))
    | inr killed ↦ absurd (ground arith)
  ]

  conclude-Tells : (r : Option State) → Returned Tells (conclude w r)
  unfolding conclude forget
  conclude-Tells none = tt
  conclude-Tells (some u) =
      let v = did close_pidfd u in
      let x = wait_container w v in
      answer-Tells x.0 (forget w x.1) (λ e. inr (inr (wait_container-Among v e)))

  -- When cont_attend returns, its status is not 1, which boot takes for a reboot, or the supervisor
  -- took a SIGHUP, or waitpid reported that signal 1 had ended the container; and the supervisor
  -- took no SIGHUP, or the status is 1. This holds of the early failures too.
  pub cont_attend-Tells :
      (fuel : ℕ) (latch : Latch) (t : Trace) → Returned Tells (cont_attend w fuel latch t)
  unfolding cont_attend watch
  cont_attend-Tells fuel latch t =
      let s : State = record {
        latch = latch;
        kill_mode = 0;
        sleep_ms = 5000;
        has_stat = false;
        trace = t;
      } in
      let r = find_monitor w 5 s in
      elim (Bool-cases r.0) [
        | inr lost ↦ rw lost (answer-Tells 0 r.1 (λ e. absurd (omega arith)))
        | inl found ↦ rw found (elim (Bool-cases (w.opens r.1.trace)) [
          | inr failed_ ↦
              rw failed_ (answer-Tells 0 (did (pidfd_open false) r.1) (λ e. absurd (omega arith)))
          | inl open_ ↦
              rw open_
                (conclude-Tells (attend_loop w fuel (check_signals w (did (pidfd_open true) r.1))))
        ])
      ]
