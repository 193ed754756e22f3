-- ===== src/Attend/Examples.antt =====
-- Runs of cont_attend.
use vzgot.Base.{◌≡◌, ◌≢◌, refl, true, false, some, [], ◌∷◌}
use vzgot.Text.{codes}
use vzgot.Command
use vzgot.Signal.{Latch, Flags}
use vzgot.Attend.{
  interrupted, timeout, signaled, shutdown, Trace, World, State, attend_loop, cont_attend,
}
use vzgot.Attend.Modes.{Guarded}
use vzgot.Attend.Kill.{Returned, cont_attend-Guarded}
use vzgot.Attend.Status.{Tells, cont_attend-Tells}
use vzgot.Attend.Stop.{attend_loop-ends}

abbrev flags : Flags
flags = record {
  sigterm = false;
  sigquit = false;
  sigint = false;
  sighup = false;
  sigcont = false;
  debug = 0;
  reports = 0;
}

-- no signal is counted
abbrev latch : Latch
latch = record { counts = 0 ∷ 0 ∷ 0 ∷ []; flags = flags }

-- cont_shutdown finds no process
abbrev shut : Command.World
shut = record {
  loads = λ _ _. true;
  pids = λ _. 0;
  injects = λ _. true;
  scripts = λ _. true;
  counts = λ _. some 1;
  execs = λ _. false;
  boots = λ _ _. 0;
  libexec = [];
}

-- the monitoring process is lost at once, and the container never ends by itself
abbrev hung : World
hung = record {
  arrives = λ _. [];
  has_monitor = λ _. true;
  opens = λ _. true;
  polls = λ _. timeout;
  updates = λ _. true;
  monitor_lives = λ _. false;
  waits = λ _. signaled 9;
  removes = λ _. true;
  contname = codes "web";
  command = λ _. shut;
}

-- a shutdown was asked for
abbrev stopping : State
stopping = record {
  latch = latch;
  kill_mode = 1;
  sleep_ms = 10000;
  has_stat = true;
  trace = shutdown [] ∷ [];
}

cont_attend-Guarded_example : Returned (λ _ s. Guarded s.trace) (cont_attend hung 5 latch [])
cont_attend-Guarded_example = cont_attend-Guarded hung 5 latch [] tt

cont_attend-Tells_example : Returned Tells (cont_attend hung 5 latch [])
cont_attend-Tells_example = cont_attend-Tells hung 5 latch []

timeout≢interrupted : (t : Trace) → hung.polls t ≢ interrupted
timeout≢interrupted t e = cc

attend_loop-ends_example : (u : State) × (attend_loop hung 2 stopping ≡ some u)
attend_loop-ends_example = attend_loop-ends hung 0 stopping timeout≢interrupted refl
