-- ===== src/Process/Delay.antt =====
-- How long prc_childkill waits.
use vzgot.Base.{
  ℕ, zero, suc, ◌+◌, ◌≤◌, ◌≡◌, refl, Bool, true, false, List, [], ◌∷◌, leb, if◌then◌else◌, ◌∙◌,
  arith,
}
use vzgot.Process.{
  sigterm, sigcheck, sigkill, reap, sleep, Trace, World, send_term, look, wait_exit, send_kill,
  child_kill,
}

unfoldable pub sleeps : Trace → ℕ
sleeps [] = 0
sleeps (sleep ∷ t) = suc (sleeps t)
sleeps (_ ∷ t) = sleeps t

skip-sleeps :
    (skip : Bool) (pid : ℕ) (b : Bool) (t : Trace)
    → sleeps (if skip then t else sigterm pid b ∷ t) ≡ sleeps t
unfolding sleeps
skip-sleeps true pid b t = refl
skip-sleeps false pid b t = refl

skip_look-sleeps :
    (skip : Bool) (pid : ℕ) (b : Bool) (t : Trace)
    → sleeps (if skip then t else sigcheck pid b ∷ t) ≡ sleeps t
unfolding sleeps
skip_look-sleeps true pid b t = refl
skip_look-sleeps false pid b t = refl

skip_kill-sleeps :
    (skip kill : Bool) (pid : ℕ) (b : Bool) (t : Trace)
    → sleeps
        (if skip then t else if kill then sigkill pid ∷ sigcheck pid b ∷ t else sigcheck pid b ∷ t)
      ≡ sleeps t
unfolding sleeps
skip_kill-sleeps true kill pid b t = refl
skip_kill-sleeps false true pid b t = refl
skip_kill-sleeps false false pid b t = refl

module _ (w : World) where
  send_term-sleeps : (ps : List ℕ) (o : Bool) (t : Trace) → sleeps (send_term w ps o t).1 ≡ sleeps t
  unfolding send_term
  send_term-sleeps [] o t = refl
  send_term-sleeps (p ∷ ps) o t = send_term-sleeps ps _ _ ∙ skip-sleeps (leb p 1) p (w.terms t p) t

  look-sleeps : (ps : List ℕ) (o : Bool) (t : Trace) → sleeps (look w ps o t).1 ≡ sleeps t
  unfolding look
  look-sleeps [] o t = refl
  look-sleeps (p ∷ ps) o t = look-sleeps ps _ _ ∙ skip_look-sleeps (leb p 1) p (w.checks t p) t

  send_kill-sleeps : (ps : List ℕ) (t : Trace) → sleeps (send_kill w ps t) ≡ sleeps t
  unfolding send_kill
  send_kill-sleeps [] t = refl
  send_kill-sleeps (p ∷ ps) t =
      send_kill-sleeps ps _ ∙ skip_kill-sleeps (leb p 1) (w.checks t p) p (w.checks t p) t

  wait_exit-sleeps :
      (ps : List ℕ) (delay : ℕ) (o : Bool) (t : Trace)
      → sleeps (wait_exit w ps delay o t).1 ≤ delay + sleeps t
  unfolding wait_exit sleeps
  wait_exit-sleeps ps zero o t = omega arith
  wait_exit-sleeps ps (suc delay) false t = omega arith
  wait_exit-sleeps ps (suc delay) true t =
      let u = reap ∷ sleep ∷ t in
      let r = look w ps false u in
      let e = look-sleeps ps false u in let rest = wait_exit-sleeps ps delay r.0 r.1 in omega arith

  wait_exit-idle :
      (ps : List ℕ) (delay : ℕ) (o : Bool) (t : Trace)
      → o ≡ false
      → sleeps (wait_exit w ps (suc delay) o t).1 ≡ sleeps t
  unfolding wait_exit
  wait_exit-idle ps delay o t off = rw off refl

  last-sleeps :
      (ps : List ℕ) (b : Bool) (t : Trace) → sleeps (if b then send_kill w ps t else t) ≡ sleeps t
  last-sleeps ps true t = send_kill-sleeps ps t
  last-sleeps ps false t = refl

  last_loop-sleeps :
      (pids : List ℕ) (more : ℕ) (t : Trace)
      → (let r = send_term w pids false (reap ∷ t) in
          sleeps (child_kill w pids more t) ≡ sleeps (wait_exit w pids (suc more) r.0 r.1).1)
  unfolding child_kill sleeps
  last_loop-sleeps pids more t =
      let r = send_term w pids false (reap ∷ t) in
      let s = wait_exit w pids (suc more) r.0 r.1 in last-sleeps pids s.0 s.1

  -- prc_childkill with a delay of at least one second sleeps at most `delay` times for a second.
  pub child_kill-sleeps :
      (pids : List ℕ) (more : ℕ) (t : Trace)
      → sleeps (child_kill w pids more t) ≤ suc more + sleeps t
  unfolding sleeps
  child_kill-sleeps pids more t =
      let r = send_term w pids false (reap ∷ t) in
      let er = send_term-sleeps pids false (reap ∷ t) in
      let es = wait_exit-sleeps pids (suc more) r.0 r.1 in
      let ek = last_loop-sleeps pids more t in omega arith

  -- prc_childkill does not sleep when no process of the list takes SIGTERM.
  pub child_kill_at_once :
      (pids : List ℕ) (more : ℕ) (t : Trace)
      → (send_term w pids false (reap ∷ t)).0 ≡ false
      → sleeps (child_kill w pids more t) ≡ sleeps t
  unfolding sleeps
  child_kill_at_once pids more t none_left =
      let r = send_term w pids false (reap ∷ t) in
      let er = send_term-sleeps pids false (reap ∷ t) in
      let ek = last_loop-sleeps pids more t in
      let idle = wait_exit-idle pids more r.0 r.1 none_left in omega arith
