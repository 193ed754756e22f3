-- ===== src/Process/Aim.antt =====
-- Whom prc_childkill signals.
use vzgot.Base.{
  ℕ, zero, suc, ◌<◌, ◌≡◌, refl, Bool, true, false, List, [], ◌∷◌, leb, if◌then◌else◌, Bool-cases,
  inl, inr, All, Among, All-Among, arith,
}
use vzgot.Process.{
  Event, sigterm, sigcheck, sigkill, reap, sleep, Trace, World, send_term, look, wait_exit,
  send_kill, child_kill,
}

-- a signal goes to a listed process, and never to init or to all
abbrev pub Aimed : List ℕ → Event → Type 0
Aimed pids (sigterm pid b) = (1 < pid) × Among pid pids
Aimed pids (sigcheck pid b) = (1 < pid) × Among pid pids
Aimed pids (sigkill pid) = (1 < pid) × Among pid pids
Aimed pids _ = Unit

module _ (w : World) where
  -- the three loops signal only processes above 1, in `pids`
  send_term-Aimed :
      (pids ps : List ℕ) (o : Bool) (t : Trace)
      → All (λ p. Among p pids) ps
      → All (Aimed pids) t
      → All (Aimed pids) (send_term w ps o t).1
  unfolding send_term
  send_term-Aimed pids [] o t a h = h
  send_term-Aimed pids (p ∷ ps) o t (i, a) h = send_term-Aimed pids ps _ _ a (go (leb p 1) refl)
    where
      go :
          (skip : Bool)
          → leb p 1 ≡ skip
          → All (Aimed pids) (if skip then t else sigterm p (w.terms t p) ∷ t)
      go true e = h
      go false e = ((ground arith, i), h)

  look-Aimed :
      (pids ps : List ℕ) (o : Bool) (t : Trace)
      → All (λ p. Among p pids) ps
      → All (Aimed pids) t
      → All (Aimed pids) (look w ps o t).1
  unfolding look
  look-Aimed pids [] o t a h = h
  look-Aimed pids (p ∷ ps) o t (i, a) h = look-Aimed pids ps _ _ a (go (leb p 1) refl)
    where
      go :
          (skip : Bool)
          → leb p 1 ≡ skip
          → All (Aimed pids) (if skip then t else sigcheck p (w.checks t p) ∷ t)
      go true e = h
      go false e = ((ground arith, i), h)

  wait_exit-Aimed :
      (pids : List ℕ) (delay : ℕ) (o : Bool) (t : Trace)
      → All (λ p. Among p pids) pids
      → All (Aimed pids) t
      → All (Aimed pids) (wait_exit w pids delay o t).1
  unfolding wait_exit
  wait_exit-Aimed pids zero o t a h = h
  wait_exit-Aimed pids (suc delay) false t a h = h
  wait_exit-Aimed pids (suc delay) true t a h =
      wait_exit-Aimed pids delay _ _ a
        (look-Aimed pids pids false (reap ∷ sleep ∷ t) a (tt, (tt, h)))

  send_kill-Aimed :
      (pids ps : List ℕ) (t : Trace)
      → All (λ p. Among p pids) ps
      → All (Aimed pids) t
      → All (Aimed pids) (send_kill w ps t)
  unfolding send_kill
  send_kill-Aimed pids [] t a h = h
  send_kill-Aimed pids (p ∷ ps) t (i, a) h =
      send_kill-Aimed pids ps _ a (go (leb p 1) refl (w.checks t p))
    where
      go :
          (skip : Bool)
          → leb p 1 ≡ skip
          → (b : Bool)
          → All
              (Aimed pids)
              (if skip then t else if b then sigkill p ∷ sigcheck p b ∷ t else sigcheck p b ∷ t)
      go true e b = h
      go false e true = ((ground arith, i), ((ground arith, i), h))
      go false e false = ((ground arith, i), h)

  -- If all calls before were such, then all calls behind prc_childkill are: it signals no process
  -- but those of the list, and neither process 0 nor process 1, even where the list holds them.
  pub child_kill-Aimed :
      (pids : List ℕ) (more : ℕ) (t : Trace)
      → All (Aimed pids) t
      → All (Aimed pids) (child_kill w pids more t)
  unfolding child_kill
  child_kill-Aimed pids more t h =
      let a = All-Among (λ p. Among p pids) pids (λ p i. i) in
      let r = send_term w pids false (reap ∷ t) in
      let hr = send_term-Aimed pids pids false (reap ∷ t) a (tt, h) in
      let s = wait_exit w pids (suc more) r.0 r.1 in
      let hs = wait_exit-Aimed pids (suc more) r.0 r.1 a hr in
      (
        tt,
        elim (Bool-cases s.0) [
          | inl still ↦ rw still (send_kill-Aimed pids pids s.1 a hs)
          | inr none_left ↦ rw none_left hs
        ],
      )
