-- ===== src/Signal/Examples.antt =====
-- Runs of the signal latch, and its theorem at a concrete sequence of signals.
use vzgot.Base.{◌≡◌, refl, true, false, [], ◌∷◌}
use vzgot.Signal.{Flags, hup, quit, usr2, trapsig, checksig}
use vzgot.Signal.Check.{all_zero, deliver, idle}

abbrev quiet : Flags
quiet = record {
  sigterm = false;
  sigquit = false;
  sigint = false;
  sighup = false;
  sigcont = false;
  debug = 2;
  reports = 0;
}

check_run :
    (checksig (deliver (usr2 ∷ hup ∷ quit ∷ usr2 ∷ []) (idle quiet))).0.flags
    ≡ record quiet { sighup = true; sigquit = true; sigterm = true; debug = 1 }
unfolding checksig trapsig all_zero
check_run = refl
