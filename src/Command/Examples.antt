-- ===== src/Command/Examples.antt =====
-- Runs of the commands.
use vzgot.Base.{none, ◌≡◌, refl, true, false, some, [], ◌∷◌, arith}
use vzgot.Text.{codes, to_lower, is_alnum}
use vzgot.Text.Voca.{same_word}
use vzgot.Command.{
  World, a_reboot, action, cont_shutdown, power_off, vzexec, no_name, exec_in, wait_stop, full_stop,
}
use vzgot.Command.Main.{pos, Settings}
use vzgot.Command.Dispatch.{word_of, promised, action-promised}

abbrev fresh : Settings
fresh = record {
  confdir = none;
  debug = pos 0;
  foreground = false;
  privileged = false;
  verbose = false;
  status = pos 0;
  trace = [];
}

-- the container's process is 4711, and everything succeeds
abbrev world : World
world = record {
  loads = λ _ _. true;
  pids = λ _. 4711;
  injects = λ _. true;
  scripts = λ _. true;
  counts = λ _. some 1;
  execs = λ _. false;
  boots = λ _ _. 0;
  libexec = codes "/usr/libexec/vzgot";
}

action-promised_example :
    action world (codes "ReBoot" ∷ codes "web" ∷ []) []
    ≡ promised world a_reboot (codes "web" ∷ []) []
unfolding word_of same_word to_lower is_alnum
action-promised_example =
    action-promised world a_reboot (codes "ReBoot") (codes "web" ∷ []) [] (λ e. cc) refl
      (ground arith)

cont_shutdown_run : (cont_shutdown world (some (codes "web")) []).0 ≡ 0
unfolding cont_shutdown power_off vzexec no_name exec_in wait_stop full_stop
cont_shutdown_run = refl
