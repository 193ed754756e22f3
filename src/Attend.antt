-- ===== src/Attend.antt =====
-- The supervisor's wait for its container: cont_attend of app/vzgot.c. What the system answers is
-- the world's choice, and may depend on all that was done before; the trace keeps what was done.
-- cont_shutdown, which is called from here, is that of Command; its calls are one event.
pub mod Modes
pub mod Kill
pub mod Status
pub mod Stop
mod Examples
use vzgot.Base.{
  ℕ, zero, suc, ◌+◌, ◌*◌, Bool, true, false, not, ◌||◌, Option, none, some, List, [], ◌∷◌, ◌==◌,
  ltb, if◌then◌else◌,
}
use vzgot.Text.{Bytes}
use vzgot.Signal.{Latch, Flags, trapsig, checksig}
use vzgot.Command.{cont_shutdown}
use vzgot.Command

-- ppoll: interrupted by a signal, failed otherwise, timed out, or the container's pidfd is ready
pub data Ready : Type 0 where
  interrupted failed timeout ready : Ready

-- waitpid: an error, 0, or the container's end, by exit or by a signal
pub data Waited : Type 0 where
  wait_failed not_exited : Waited
  exited : ℕ → Waited
  signaled : ℕ → Waited

pub data Event : Type 0 where
  slept : Event
  purged : Event
  monitor : Bool → Event
  pidfd_open : Bool → Event
  polled : Ready → Event
  -- the calls of cont_shutdown, the newest first
  shutdown : Command.Trace → Event
  new_status : Event
  update_status : Bool → Event
  updateproc : Event
  probe_monitor : Bool → Event
  kill_int : Event
  kill_kill : Event
  close_pidfd : Event
  waited : Waited → Event
  nozombie : Event
  rm_cont_pid : Bool → Event

abbrev pub Trace : Type 0
Trace = List Event

pub record World : Type 0 where
  -- the signals that came since the last look
  pub arrives : Trace → List ℕ
  pub has_monitor : Trace → Bool
  pub opens : Trace → Bool
  pub polls : Trace → Ready
  pub updates : Trace → Bool
  pub monitor_lives : Trace → Bool
  pub waits : Trace → Waited
  pub removes : Trace → Bool
  -- the container's name, and what answers cont_shutdown
  pub contname : Bytes
  pub command : Trace → Command.World

pub record State : Type 0 where
  pub latch : Latch
  pub kill_mode : ℕ
  pub sleep_ms : ℕ
  pub has_stat : Bool
  pub trace : Trace

abbrev pub did : Event → State → State
did e s = record s { trace = e ∷ s.trace }

-- the handler runs for each signal
unfoldable pub arrive : List ℕ → Latch → Latch
arrive [] l = l
arrive (sig ∷ sigs) l = arrive sigs (trapsig sig l)

-- `if (sigterm==true) sigint=true`
unfoldable pub term_is_int : Latch → Latch
term_is_int l = record l { flags = record l.flags { sigint = l.flags.sigterm || l.flags.sigint } }

-- what phase 4 makes of waitpid's answer: `status` is the raw wait status of an exit
unfoldable pub status_of : Waited → ℕ
status_of wait_failed = 0
status_of not_exited = 0
status_of (exited code) = code * 256
status_of (signaled sig) = sig

-- `if (sighup==true) status=1`
unfoldable pub answer : ℕ × State → ℕ × State
answer (status, s) = (if s.latch.flags.sighup then 1 else status, s)

module _ (w : World) where
  -- apl_checksig
  unfoldable pub check_signals : State → State
  check_signals s = record s {
    latch = (checksig (arrive (w.arrives s.trace) s.latch)).0;
    trace = purged ∷ s.trace;
  }

  -- phase 0, with `i` tries left
  unfoldable pub find_monitor : ℕ → State → Bool × State
  find_monitor zero s = (false, s)
  find_monitor (suc i) s =
      let u = check_signals (did slept s) in
      let b = w.has_monitor u.trace in
      let v = did (monitor b) u in let rest = find_monitor i v in if b then (true, v) else rest

  -- EINTR
  unfoldable pub on_interrupt : State → State
  unfolding term_is_int
  on_interrupt s =
      let u = check_signals s in
      let v = record u { latch = term_is_int u.latch } in
      let asked = v.latch.flags.sigint || v.latch.flags.sighup in
      let calls = (cont_shutdown (w.command v.trace) (some w.contname) []).1 in
      if asked
      then record v { kill_mode = 1; sleep_ms = 10000; trace = shutdown calls ∷ v.trace }
      else v

  -- the duty task of a timeout: the container's status
  unfoldable pub update : State → Trace
  update s =
      let t = if s.has_stat then s.trace else new_status ∷ s.trace in
      let b = w.updates t in let u = update_status b ∷ t in if b then updateproc ∷ u else u

  -- the duty task of a timeout
  unfoldable pub duty : State → State
  unfolding update
  duty s =
      let u = update s in
      let m = w.monitor_lives u in
      let v = record s { has_stat = true; trace = probe_monitor m ∷ u } in
      if m then v else record v { sleep_ms = 1000; kill_mode = 1 }

  -- `switch (kill_mode)` at a timeout; the flag is `attend`
  unfoldable pub on_timeout : State → Bool × State
  unfolding duty
  on_timeout s =
      let mode = s.kill_mode in
      if mode == 0
      then (true, duty s)
      else if mode == 1
      then (true, record s { kill_mode = 2; trace = kill_int ∷ s.trace })
      else if mode == 2
      then (false, record s { kill_mode = 3; trace = kill_kill ∷ s.trace })
      else (false, s)

  -- one round of the loop of phase 3, at the answer of ppoll
  unfoldable pub round : Ready → State → Bool × State
  unfolding on_interrupt on_timeout
  round interrupted s = (true, on_interrupt s)
  round failed s = (false, s)
  round timeout s = on_timeout s
  round ready s = (false, s)

  -- the loop of phase 3; `none` is a loop that is not over yet
  unfoldable pub attend_loop : ℕ → State → Option State
  attend_loop zero s = none
  attend_loop (suc fuel) s =
      let r = w.polls s.trace in
      let (attend, u) = round r (did (polled r) s) in
      let rest = attend_loop fuel u in if attend then rest else some u

  -- phase 4
  unfoldable pub wait_container : State → ℕ × State
  unfolding status_of
  wait_container s =
      let r = w.waits s.trace in
      if ltb s.kill_mode 3 then (status_of r, did (waited r) s) else (0, s)

  -- phases 5 and 6
  unfoldable pub forget : State → State
  forget s = let u = did nozombie s in did (rm_cont_pid (w.removes u.trace)) u

  -- phases 4 to 6, and the answer
  unfoldable pub conclude : Option State → Option (ℕ × State)
  unfolding wait_container forget answer
  conclude none = none
  conclude (some u) =
      let (status, v) = wait_container (did close_pidfd u) in some (answer (status, forget v))

  -- phases 3 to 6 behind pidfd_open
  unfoldable pub watch : ℕ → State → Option (ℕ × State)
  unfolding attend_loop check_signals conclude
  watch fuel s = conclude (attend_loop fuel (check_signals s))

  -- cont_attend, with the loop's rounds bounded by `fuel`
  unfoldable pub cont_attend : ℕ → Latch → Trace → Option (ℕ × State)
  cont_attend fuel latch t =
      let s : State = record {
        latch = latch;
        kill_mode = 0;
        sleep_ms = 5000;
        has_stat = false;
        trace = t;
      } in
      let (found, u) = find_monitor 5 s in
      let b = w.opens u.trace in
      let v = did (pidfd_open b) u in
      let seen = watch fuel v in
      if not found then some (answer (0, u)) else if b then seen else some (answer (0, v))
