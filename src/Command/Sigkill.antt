-- ===== src/Command/Sigkill.antt =====
-- When cont_shutdown kills the container's process.
use vzgot.Base.{
  ℕ, zero, suc, ◌≢◌, refl, Bool, true, false, not, Option, none, some, List, [], ◌∷◌, ◌==◌, ltb,
  if◌then◌else◌, Bool-cases, inl, inr, Among, arith,
}
use vzgot.Text.{Bytes}
use vzgot.Command.{
  Event, loadconfig, get_cont_pid, injectcmd, slept, counted, sigkill, Trace, World, poweroff,
  params, no_name, exec_in, vzexec, full_stop, wait_stop, power_off, cont_shutdown,
}

abbrev pub IsQuiet : Event → Type 0
IsQuiet (sigkill pid) = ⊥
IsQuiet e = Unit

abbrev pub AllQuiet : Trace → Type 0
AllQuiet [] = Unit
AllQuiet (e ∷ t) = IsQuiet e × AllQuiet t

-- no SIGKILL, or one as the last call, to the process that the pid file of the container names, and
-- not to process 1
pub data KillsLast : Trace → Type 0 where
  spares : (t : Trace) → AllQuiet t → KillsLast t
  kills :
      (pid : ℕ) (t : Trace)
      → AllQuiet t
      → Among (get_cont_pid pid) t
      → pid ≢ 0
      → pid ≢ 1
      → KillsLast (sigkill pid ∷ t)

module _ (w : World) where
  -- what holds of a trace and of every longer one without SIGKILL
  module _ (P : Trace → Type 0) (keep : (e : Event) (t : Trace) → IsQuiet e → P t → P (e ∷ t)) where
    exec_in-keeps : (args : List Bytes) (t : Trace) → P t → P (exec_in w args t).1
    unfolding exec_in
    exec_in-keeps args t h =
        let pid = w.pids t in
        let u = get_cont_pid pid ∷ t in
        let g : P u = keep (get_cont_pid pid) t tt h in
        elim (Bool-cases (pid == 0)) [
          | inl lost ↦ rw lost g
          | inr found ↦ rw found (elim (Bool-cases (w.injects u)) [
            | inl ok ↦ rw ok (keep (injectcmd pid (params args) true) u tt g)
            | inr bad ↦ rw bad (keep (injectcmd pid (params args) false) u tt g)
          ])
        ]

    vzexec-keeps :
        (contname : Option Bytes) (args : List Bytes) (t : Trace)
        → P t
        → P (vzexec w contname args t).1
    unfolding vzexec
    vzexec-keeps contname args t h =
        let g = λ (b : Bool). keep (loadconfig contname b) t tt h in
        elim (Bool-cases (no_name contname)) [
          | inl none_ ↦ rw none_ h
          | inr named ↦ rw named (elim (Bool-cases (w.loads t contname)) [
            | inl ok ↦ rw ok (exec_in-keeps args _ (g true))
            | inr bad ↦ rw bad (g false)
          ])
        ]

    full_stop-keeps : (i status : ℕ) (t : Trace) → P t → P (full_stop w i status t).1
    unfolding full_stop
    full_stop-keeps zero status t h = h
    full_stop-keeps (suc i) status t h =
        let g : P (counted (w.counts t) ∷ t) = keep (counted (w.counts t)) t tt h in
        go (w.counts t) _ g (full_stop-keeps i status _ (keep slept _ tt g))
      where
        go :
            (r : Option ℕ) (rest : ℕ × Trace)
            → P (counted r ∷ t)
            → P rest.1
            → P
                (elim r as (λ _. ℕ × Trace) [
                  | none ↦ (status, counted r ∷ t)
                  | some remaining ↦ if ltb remaining 2 then (0, counted r ∷ t) else rest
                ]).1
        go none rest g h = g
        go (some remaining) rest g h = elim (Bool-cases (ltb remaining 2)) [
          | inl few ↦ rw few g
          | inr many ↦ rw many h
        ]

  -- what is known before the kill
  abbrev Found : ℕ → Trace → Type 0
  Found pid t = AllQuiet t × Among (get_cont_pid pid) t

  keep-Found : (pid : ℕ) (e : Event) (t : Trace) → IsQuiet e → Found pid t → Found pid (e ∷ t)
  keep-Found pid e t q (quiet, found) = ((q, quiet), inr found)

  wait_stop-KillsLast :
      (cntpid status : ℕ) (t : Trace)
      → cntpid ≢ 0
      → Found cntpid t
      → KillsLast (wait_stop w cntpid status t).1
  unfolding wait_stop
  wait_stop-KillsLast cntpid status t some_pid h =
      let g = keep-Found cntpid slept t tt h in
      elim (Bool-cases (cntpid == 1)) [
        | inl init ↦ rw init (spares _ g.0)
        | inr other ↦
            let (quiet, found) = full_stop-keeps (Found cntpid) (keep-Found cntpid) 15 status _ g in
            rw other (kills cntpid _ quiet found some_pid (λ e. ground arith))
      ]

  power_off-KillsLast :
      (contname : Option Bytes) (cntpid : ℕ) (t : Trace)
      → cntpid ≢ 0
      → Found cntpid t
      → KillsLast (power_off w contname cntpid t).1
  unfolding power_off
  power_off-KillsLast contname cntpid t some_pid h =
      let r = vzexec w contname poweroff t in
      let g = vzexec-keeps (Found cntpid) (keep-Found cntpid) contname poweroff t h in
      elim (Bool-cases (r.0 == 0)) [
        | inl done ↦ rw done (wait_stop-KillsLast cntpid r.0 r.1 some_pid g)
        | inr bad ↦ rw bad (spares _ (tt, g.0))
      ]

  pub cont_shutdown-KillsLast :
      (contname : Option Bytes) → KillsLast (cont_shutdown w contname []).1
  unfolding cont_shutdown
  cont_shutdown-KillsLast contname =
      let u : Trace = loadconfig contname (w.loads [] contname) ∷ [] in
      let pid = w.pids u in
      elim (Bool-cases (not (w.loads [] contname))) [
        | inl bad ↦ rw bad (spares _ (tt, tt))
        | inr ok ↦ rw ok (elim (Bool-cases (pid == 0)) [
          | inl lost ↦ rw lost (spares _ (tt, (tt, tt)))
          | inr found ↦ rw found (
              power_off-KillsLast contname pid (get_cont_pid pid ∷ u) (λ e. ground arith)
                ((tt, (tt, tt)), inl refl))
        ])
      ]
