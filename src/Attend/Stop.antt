-- ===== src/Attend/Stop.antt =====
-- cont_attend's loop comes to an end once a stop is under way.
use vzgot.Base.{ℕ, suc, ◌≡◌, ◌≢◌, refl, false, some, ◌∷◌, Bool-cases, inl, inr, ◌⊎◌}
use vzgot.Attend.{
  Ready, interrupted, failed, timeout, ready, polled, kill_int, kill_kill, Trace, World, State, did,
  on_timeout, round, attend_loop,
}

module _ (w : World) where
  round-last : (r : Ready) (s : State) → r ≢ interrupted → s.kill_mode ≡ 2 → (round w r s).0 ≡ false
  unfolding round on_timeout
  round-last interrupted s calm mode = absurd (calm refl)
  round-last failed s calm mode = refl
  round-last ready s calm mode = refl
  round-last timeout s calm mode = rw mode refl

  round-next :
      (r : Ready) (s : State)
      → r ≢ interrupted
      → s.kill_mode ≡ 1
      → ((round w r s).0 ≡ false) ⊎ ((round w r s).1.kill_mode ≡ 2)
  unfolding round on_timeout
  round-next interrupted s calm mode = absurd (calm refl)
  round-next failed s calm mode = inl refl
  round-next ready s calm mode = inl refl
  round-next timeout s calm mode = rw mode (inr refl)

  attend_loop-last :
      (n : ℕ) (s : State)
      → ((t : Trace) → w.polls t ≢ interrupted)
      → s.kill_mode ≡ 2
      → (u : State) × (attend_loop w (suc n) s ≡ some u)
  unfolding attend_loop
  attend_loop-last n s calm mode =
      let r = w.polls s.trace in rw (round-last r (did (polled r) s) (calm s.trace) mode) (_, refl)

  attend_loop-over :
      (n : ℕ) (s : State)
      → (let r = w.polls s.trace in (round w r (did (polled r) s)).0 ≡ false)
      → (u : State) × (attend_loop w (suc n) s ≡ some u)
  unfolding attend_loop
  attend_loop-over n s e = rw e (_, refl)

  attend_loop-more :
      (n : ℕ) (s : State)
      → (let r = w.polls s.trace in
          let x = round w r (did (polled r) s) in
          ((u : State) × (attend_loop w n x.1 ≡ some u))
          → (u : State) × (attend_loop w (suc n) s ≡ some u))
  unfolding attend_loop
  attend_loop-more n s (u, e) =
      let r = w.polls s.trace in
      let x = round w r (did (polled r) s) in
      elim (Bool-cases x.0) [ inl on ↦ rw on (u, e) | inr off ↦ rw off (x.1, refl) ]

  -- Once cont_attend has asked for a shutdown or has lost the monitoring process, and so is in kill
  -- mode 1, its loop is over after at most two more polls, whatever they answer, if no signal
  -- interrupts them.
  pub attend_loop-ends :
      (n : ℕ) (s : State)
      → ((t : Trace) → w.polls t ≢ interrupted)
      → s.kill_mode ≡ 1
      → (u : State) × (attend_loop w (suc (suc n)) s ≡ some u)
  attend_loop-ends n s calm mode =
      let r = w.polls s.trace in
      elim (round-next r (did (polled r) s) (calm s.trace) mode) [
        | inl over ↦ attend_loop-over (suc n) s over
        | inr mode' ↦
            attend_loop-more (suc n) s
              (attend_loop-last n (round w r (did (polled r) s)).1 calm mode')
      ]

  -- If all polls time out in kill mode 1, the loop sends SIGINT at the first, SIGKILL at the
  -- second, does nothing else, and is over.
  pub attend_loop-overkill :
      (n : ℕ) (s : State)
      → ((t : Trace) → w.polls t ≡ timeout)
      → s.kill_mode ≡ 1
      → attend_loop w (suc (suc n)) s
        ≡ some (record s {
          kill_mode = 3;
          trace = kill_kill ∷ polled timeout ∷ kill_int ∷ polled timeout ∷ s.trace;
        })
  unfolding attend_loop round on_timeout
  attend_loop-overkill n s late mode =
      rw (late s.trace, mode, late (kill_int ∷ polled timeout ∷ s.trace)) refl
