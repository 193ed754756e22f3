-- ===== src/Process/Kill.antt =====
-- prc_childkill leaves no process of its list over.
use vzgot.Base.{
  ℕ, zero, suc, ◌<◌, ◌≡◌, Bool, true, false, List, [], ◌∷◌, leb, if◌then◌else◌, Bool-cases, inl,
  inr, ◌⊎◌, ap, ap₂, sym, subst, Among, arith,
}
use vzgot.Process.{
  Event, sigterm, sigcheck, sigkill, reap, sleep, Trace, World, send_term, look, wait_exit,
  send_kill, child_kill,
}

-- the process did not answer SIGTERM or a later look, or it got SIGKILL
abbrev pub Ended : ℕ → Trace → Type 0
Ended pid t = Among (sigkill pid) t ⊎ Among (sigcheck pid false) t ⊎ Among (sigterm pid false) t

module _ (w : World) where
  skip-Among :
      (e : Event) (skip : Bool) (last : Event) (t : Trace)
      → Among e t
      → Among e (if skip then t else last ∷ t)
  skip-Among e true last t h = h
  skip-Among e false last t h = inr h

  -- what happened stays in the trace
  send_term-Among :
      (e : Event) (pids : List ℕ) (o : Bool) (t : Trace)
      → Among e t
      → Among e (send_term w pids o t).1
  unfolding send_term
  send_term-Among e [] o t h = h
  send_term-Among e (p ∷ ps) o t h =
      send_term-Among e ps _ _ (skip-Among e (leb p 1) (sigterm p (w.terms t p)) t h)

  look-Among :
      (e : Event) (pids : List ℕ) (o : Bool) (t : Trace) → Among e t → Among e (look w pids o t).1
  unfolding look
  look-Among e [] o t h = h
  look-Among e (p ∷ ps) o t h =
      look-Among e ps _ _ (skip-Among e (leb p 1) (sigcheck p (w.checks t p)) t h)

  wait_exit-Among :
      (e : Event) (pids : List ℕ) (delay : ℕ) (o : Bool) (t : Trace)
      → Among e t
      → Among e (wait_exit w pids delay o t).1
  unfolding wait_exit
  wait_exit-Among e pids zero o t h = h
  wait_exit-Among e pids (suc delay) false t h = h
  wait_exit-Among e pids (suc delay) true t h =
      wait_exit-Among e pids delay _ _ (look-Among e pids false (reap ∷ sleep ∷ t) (inr (inr h)))

  send_kill-Among :
      (e : Event) (pids : List ℕ) (t : Trace) → Among e t → Among e (send_kill w pids t)
  unfolding send_kill
  send_kill-Among e [] t h = h
  send_kill-Among e (p ∷ ps) t h = elim (Bool-cases (leb p 1)) [
    | inl skip ↦ rw skip (send_kill-Among e ps t h)
    | inr go ↦ rw go (elim (Bool-cases (w.checks t p)) [
      | inl here ↦ rw here (send_kill-Among e ps (sigkill p ∷ sigcheck p true ∷ t) (inr (inr h)))
      | inr gone ↦ rw gone (send_kill-Among e ps (sigcheck p false ∷ t) (inr h))
    ])
  ]

  -- a loop that answers false found none of the processes
  send_term-overkill :
      (pids : List ℕ) (o : Bool) (t : Trace) → (send_term w pids o t).0 ≡ false → o ≡ false
  unfolding send_term
  send_term-overkill [] o t h = h
  send_term-overkill (p ∷ ps) o t h = let e = send_term-overkill ps _ _ h in ground arith

  look-overkill : (pids : List ℕ) (o : Bool) (t : Trace) → (look w pids o t).0 ≡ false → o ≡ false
  unfolding look
  look-overkill [] o t h = h
  look-overkill (p ∷ ps) o t h = let e = look-overkill ps _ _ h in ground arith

  send_term-missed :
      (pid : ℕ) (pids : List ℕ) (o : Bool) (t : Trace)
      → 1 < pid
      → Among pid pids
      → (send_term w pids o t).0 ≡ false
      → Among (sigterm pid false) (send_term w pids o t).1
  unfolding send_term
  send_term-missed pid [] o t big none_left h = absurd none_left
  send_term-missed pid (p ∷ ps) o t big (inr i) h = send_term-missed pid ps _ _ big i h
  send_term-missed pid (p ∷ ps) o t big (inl e) h =
      let go : leb p 1 ≡ false = ground arith in
      let o' = send_term-overkill ps _ _ h in
      let gone : w.terms t p ≡ false = ground arith in
      send_term-Among (sigterm pid false) ps _ _ (
        subst (λ b. Among (sigterm pid false) (if b then t else sigterm p (w.terms t p) ∷ t))
          (sym go) (inl (ap₂ sigterm e (sym gone))))

  look-missed :
      (pid : ℕ) (pids : List ℕ) (o : Bool) (t : Trace)
      → 1 < pid
      → Among pid pids
      → (look w pids o t).0 ≡ false
      → Among (sigcheck pid false) (look w pids o t).1
  unfolding look
  look-missed pid [] o t big none_left h = absurd none_left
  look-missed pid (p ∷ ps) o t big (inr i) h = look-missed pid ps _ _ big i h
  look-missed pid (p ∷ ps) o t big (inl e) h =
      let go : leb p 1 ≡ false = ground arith in
      let o' = look-overkill ps _ _ h in
      let gone : w.checks t p ≡ false = ground arith in
      look-Among (sigcheck pid false) ps _ _ (
        subst (λ b. Among (sigcheck pid false) (if b then t else sigcheck p (w.checks t p) ∷ t))
          (sym go) (inl (ap₂ sigcheck e (sym gone))))

  wait_exit-missed :
      (pid : ℕ) (pids : List ℕ) (delay : ℕ) (o : Bool) (t : Trace)
      → 1 < pid
      → Among pid pids
      → (wait_exit w pids delay o t).0 ≡ false
      → (o ≡ true → Among (sigcheck pid false) (wait_exit w pids delay o t).1)
  unfolding wait_exit
  wait_exit-missed pid pids zero o t big i h on = cc
  wait_exit-missed pid pids (suc delay) false t big i h on = cc
  wait_exit-missed pid pids (suc delay) true t big i h on =
      let u = reap ∷ sleep ∷ t in
      let r = look w pids false u in
      elim (Bool-cases r.0) [
        | inl still ↦ wait_exit-missed pid pids delay r.0 r.1 big i h still
        | inr none_left ↦
            wait_exit-Among (sigcheck pid false) pids delay r.0 r.1
              (look-missed pid pids false u big i none_left)
      ]

  send_kill-Ended :
      (pid : ℕ) (pids : List ℕ) (t : Trace)
      → 1 < pid
      → Among pid pids
      → Ended pid (send_kill w pids t)
  unfolding send_kill
  send_kill-Ended pid [] t big none_left = absurd none_left
  send_kill-Ended pid (p ∷ ps) t big (inr i) = send_kill-Ended pid ps _ big i
  send_kill-Ended pid (p ∷ ps) t big (inl e) =
      let go : leb p 1 ≡ false = ground arith in
      rw go (elim (Bool-cases (w.checks t p)) [
        | inl here ↦ rw here (
            inl (
              send_kill-Among (sigkill pid) ps (sigkill p ∷ sigcheck p true ∷ t)
                (inl (ap sigkill e))))
        | inr gone ↦ rw gone (
            inr (
              inl (
                send_kill-Among (sigcheck pid false) ps (sigcheck p false ∷ t)
                  (inl (ap (λ q. sigcheck q false) e)))))
      ])

  -- whichever of its three loops is the last
  wait-Ended :
      (pid : ℕ) (pids : List ℕ) (more : ℕ) (t : Trace)
      → 1 < pid
      → Among pid pids
      → (let r = send_term w pids false (reap ∷ t) in
          let s = wait_exit w pids (suc more) r.0 r.1 in s.0 ≡ false → Ended pid s.1)
  wait-Ended pid pids more t big i h =
      let r = send_term w pids false (reap ∷ t) in
      elim (Bool-cases r.0) [
        | inl still ↦ inr (inl (wait_exit-missed pid pids (suc more) r.0 r.1 big i h still))
        | inr none_left ↦ inr (
            inr (
              wait_exit-Among (sigterm pid false) pids (suc more) r.0 r.1
                (send_term-missed pid pids false (reap ∷ t) big i none_left)))
      ]

  Ended-later : (e : Event) (pid : ℕ) (t : Trace) → Ended pid t → Ended pid (e ∷ t)
  Ended-later e pid t (inl a) = inl (inr a)
  Ended-later e pid t (inr (inl a)) = inr (inl (inr a))
  Ended-later e pid t (inr (inr a)) = inr (inr (inr a))

  -- Whatever the system answers to the signals, when prc_childkill returns, every process of the
  -- list above 1 was not there at SIGTERM, or not there at a later look, or was sent SIGKILL.
  pub child_kill-Ended :
      (pid : ℕ) (pids : List ℕ) (more : ℕ) (t : Trace)
      → 1 < pid
      → Among pid pids
      → Ended pid (child_kill w pids more t)
  unfolding child_kill
  child_kill-Ended pid pids more t big i =
      let r = send_term w pids false (reap ∷ t) in
      let s = wait_exit w pids (suc more) r.0 r.1 in
      Ended-later reap pid (if s.0 then send_kill w pids s.1 else s.1) (elim (Bool-cases s.0) [
        | inl still ↦ rw still (send_kill-Ended pid pids s.1 big i)
        | inr none_left ↦ rw none_left (wait-Ended pid pids more t big i none_left)
      ])
