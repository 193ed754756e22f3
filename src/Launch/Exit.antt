-- ===== src/Launch/Exit.antt =====
-- Whom cnt_exit kills.
use vzgot.Base.{ℕ, zero, suc, ◌≡◌, ◌≢◌, refl, Bool, true, false, [], ◌∷◌, arith}
use vzgot.Launch.{
  Op, kill_0, kill_term, kill_kill, nap, Trace, World, call, sure_kill, kill_alive, stop_container,
  cnt_exit,
}

-- what has to have happened when the call is made: a signal goes to a process that was there, and
-- SIGKILL to one that is still there 20 ms after SIGTERM
abbrev pub Safe : ℕ → Op → Trace → Type 0
Safe cpid (kill_term pid) ((kill_0 p, true) ∷ t) = (pid ≡ cpid) × (p ≡ cpid) × (cpid ≢ 0)
Safe cpid (kill_term pid) t = ⊥
Safe cpid (kill_kill pid) ((kill_0 p, true) ∷ (nap n, a) ∷ (kill_term q, b) ∷ t) =
    (pid ≡ cpid) × (p ≡ cpid) × (q ≡ cpid) × (n ≡ 20000)
Safe cpid (kill_kill pid) t = ⊥
Safe cpid op t = Unit

abbrev pub Guarded : ℕ → Trace → Type 0
Guarded cpid [] = Unit
Guarded cpid ((op, b) ∷ t) = Safe cpid op t × Guarded cpid t

module _ (w : World) where
  kill_alive-Guarded :
      (pid : ℕ) (b : Bool) (t : Trace)
      → Guarded (suc pid) t
      → Guarded (suc pid) (kill_alive w (suc pid) (b, (kill_0 (suc pid), b) ∷ t))
  unfolding kill_alive sure_kill call
  kill_alive-Guarded pid false t g = (tt, g)
  kill_alive-Guarded pid true t g =
      let cpid = suc pid in
      let t1 : Trace = (kill_0 cpid, true) ∷ t in
      let t2 : Trace = (kill_term cpid, w.answer t1 (kill_term cpid)) ∷ t1 in
      let t3 : Trace = (nap 20000, w.answer t2 (nap 20000)) ∷ t2 in
      let before : Guarded cpid t3 = (tt, ((refl, refl, omega arith), (tt, g))) in
      elim (w.answer t3 (kill_0 cpid))
        as (λ b. Guarded cpid (sure_kill w cpid (b, (kill_0 cpid, b) ∷ t3))) [
          | true ↦ ((refl, refl, refl, refl), (tt, before))
          | false ↦ (tt, before)
        ]

  stop_container-Guarded :
      (cpid : ℕ) (t : Trace) → Guarded cpid t → Guarded cpid (stop_container w cpid t)
  unfolding stop_container
  stop_container-Guarded zero t g = g
  stop_container-Guarded (suc pid) t g =
      unfold call in kill_alive-Guarded pid (w.answer t (kill_0 (suc pid))) t g

  -- cnt_exit signals no process but the container's, none when this is 0, and only when it is
  -- there: first SIGTERM, and SIGKILL only when it is still there after 20 milliseconds.
  pub cnt_exit-Guarded :
      (cpid : ℕ) (t : Trace) → Guarded cpid t → Guarded cpid (cnt_exit w cpid t).1
  unfolding cnt_exit call
  cnt_exit-Guarded cpid t g = (tt, (tt, stop_container-Guarded cpid t g))
