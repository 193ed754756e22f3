-- ===== src/Monitor/Watch.antt =====
-- The end of the watch.
use vzgot.Base.{
  ℕ, ◌≡◌, refl, sym, ap, subst, ◌∙◌, Bool, true, false, Option, none, some, List, [], ◌∷◌, ◌++◌,
  ◌⊎◌, inl, inr, arith,
}
use vzgot.Monitor.{
  Event, broken, quiet, changed, Sigterm, store_keep, State, round, watch, mon_monitoring,
  do_check_mounts, do_check_pids,
}

-- whether keep_running is `b` behind a check that says `isok`: no SIGTERM counts that came before
abbrev pub IsKept : Sigterm → Bool → Bool → Type 0
IsKept sigterm isok true = (isok ≡ true) × (sigterm.after ≡ false)
IsKept sigterm isok false = (isok ≡ false) ⊎ (sigterm.after ≡ true)

-- the same behind an event
abbrev pub IsSaid : Event → Bool → State → Type 0
IsSaid broken b s = b ≡ false
IsSaid (quiet sigterm c) b s = IsKept sigterm (do_check_pids c s.shown).0 b
IsSaid (changed sigterm devices) b s = IsKept sigterm (do_check_mounts devices s.last).0 b

store_keep-IsKept :
    (sigterm : Sigterm) (isok b : Bool) → store_keep true sigterm isok ≡ b → IsKept sigterm isok b
store_keep-IsKept sigterm true true e = (refl, ground arith)
store_keep-IsKept sigterm false true e = cc
store_keep-IsKept sigterm true false e = inr (ground arith)
store_keep-IsKept sigterm false false e = inl refl

round-IsSaid :
    (event : Event) (b : Bool) (s s' : State) → round event (true, s) ≡ (b, s') → IsSaid event b s
unfolding round
round-IsSaid broken b s s' e = ap (λ r. r.0) (sym e)
round-IsSaid (quiet sigterm c) b s s' e = store_keep-IsKept sigterm _ b (ap (λ r. r.0) e)
round-IsSaid (changed sigterm devices) b s s' e = store_keep-IsKept sigterm _ b (ap (λ r. r.0) e)

-- an event after which the watch goes on, from the state before it to the one behind it
abbrev pub Passes : List Event → State → State → Type 0
Passes [] s s' = s ≡ s'
Passes (event ∷ events) s s' =
    (t : State) × IsSaid event true s × (round event (true, s) ≡ (true, t)) × Passes events t s'

-- the watch ends at the first event that is a broken `poll`, or whose check fails or is followed by
-- a SIGTERM
pub data Ended (events : List Event) (s : State) : Bool × State → Type 0 where
  ended :
      (before after : List Event) (event : Event) (t s' : State)
      → events ≡ before ++ event ∷ after
      → Passes before s t
      → IsSaid event false t
      → round event (true, t) ≡ (false, s')
      → Ended events s (false, s')

watch_stopped : (events : List Event) (s : State) → watch events (false, s) ≡ some (false, s)
unfolding watch
watch_stopped [] s = refl
watch_stopped (event ∷ events) s = refl

passed :
    (event : Event) (events : List Event) (s t : State) (r : Bool × State)
    → round event (true, s) ≡ (true, t)
    → Ended events t r
    → Ended (event ∷ events) s r
passed event events s t r e (ended before after last u s' shape p f q) =
    ended (event ∷ before) after last u s' (ap (λ l. event ∷ l) shape)
      (t, round-IsSaid event true s t e, e, p) f q

step :
    (event : Event) (events : List Event) (s : State) (r q : Bool × State)
    → ((t : State) → watch events (true, t) ≡ some r → Ended events t r)
    → round event (true, s) ≡ q
    → watch events q ≡ some r
    → Ended (event ∷ events) s r
step event events s r (false, s') later e said =
    subst (Ended (event ∷ events) s)
      (ap (λ o. elim o [ none ↦ (false, s') | some x ↦ x ]) (sym (watch_stopped events s') ∙ said))
      (ended [] events event s s' refl refl (round-IsSaid event false s s' e) e)
step event events s r (true, t) later e said = passed event events s t r e (later t said)

watch-Ended :
    (events : List Event) (s : State) (r : Bool × State)
    → watch events (true, s) ≡ some r
    → Ended events s r
unfolding watch
watch-Ended [] s r said = absurd cc
watch-Ended (event ∷ events) s r said =
    step event events s r (round event (true, s)) (λ t. watch-Ended events t r) refl said

-- what mon_monitoring returns, if it does
pub data Outcome (opens : Bool) (sigterm : Sigterm) (devices : List (Option ℕ))
    (events : List Event) (s : State) : Bool × State → Type 0 where
  blind :
      (b : Bool) (s' : State)
      → opens ≡ false
      → IsKept sigterm (do_check_mounts devices s.last).0 b
      → Outcome opens sigterm devices events s (b, s')
  worn :
      (s' : State)
      → opens ≡ true
      → IsKept sigterm (do_check_mounts devices s.last).0 false
      → Outcome opens sigterm devices events s (false, s')
  watched :
      (t : State) (r : Bool × State)
      → opens ≡ true
      → IsKept sigterm (do_check_mounts devices s.last).0 true
      → Ended events t r
      → Outcome opens sigterm devices events s r

some_eq : (p q : Bool × State) → some p ≡ some q → p ≡ q
some_eq p q e = ap (λ o. elim o [ none ↦ p | some x ↦ x ]) e

from_watch :
    (sigterm : Sigterm) (devices : List (Option ℕ)) (events : List Event) (s t : State)
    (r : Bool × State) (isok : Bool)
    → IsKept sigterm (do_check_mounts devices s.last).0 isok
    → watch events (isok, t) ≡ some r
    → Outcome true sigterm devices events s r
from_watch sigterm devices events s t r true e said =
    watched t r refl e (watch-Ended events t r said)
from_watch sigterm devices events s t r false e said =
    subst (Outcome true sigterm devices events s)
      (some_eq (false, t) r (sym (watch_stopped events t) ∙ said)) (worn t refl e)

-- mon_monitoring returns in one of three ways: without /proc/self/mountinfo, whether the first check
-- of the mounts has passed and no SIGTERM has come behind it; false, if this check fails or a
-- SIGTERM comes behind it; or false after the first round of the watch in which `poll` fails, a
-- check fails, or a SIGTERM comes behind the check, the rounds before having passed. So it returns
-- true only where it has not watched, and a SIGTERM that comes before the result of a check is
-- stored plays no part.
pub mon_monitoring-Outcome :
    (opens : Bool) (sigterm : Sigterm) (devices : List (Option ℕ)) (events : List Event) (s : State)
    (r : Bool × State)
    → mon_monitoring opens sigterm devices events s ≡ some r
    → Outcome opens sigterm devices events s r
unfolding mon_monitoring
mon_monitoring-Outcome false sigterm devices events s r said =
    subst (Outcome false sigterm devices events s) (some_eq _ r said)
      (blind _ _ refl (store_keep-IsKept sigterm _ _ refl))
mon_monitoring-Outcome true sigterm devices events s r said =
    let isok = (do_check_mounts devices s.last).0 in
    from_watch sigterm devices events s _ r (store_keep true sigterm isok)
      (store_keep-IsKept sigterm isok _ refl) said
