-- ===== src/Monitor/Examples.antt =====
-- A watch, and the theorems on it.
use vzgot.Base.{◌≡◌, refl, Bool, true, false, none, some, [], ◌∷◌, length, take, arith, List}
use vzgot.Text.{Bytes, codes, same, c_str}
use vzgot.Monitor.{
  Event, quiet, changed, Sigterm, Calls, Shown, State, round, watch, mon_monitoring,
  do_check_mounts, do_check_pids, store_pid, check_binding,
}
use vzgot.Monitor.Window.{answers, accept, check_binding-answers}
use vzgot.Monitor.Pids.{IsShown, do_check_pids-IsShown}
use vzgot.Monitor.Watch.{Outcome, mon_monitoring-Outcome}

check_binding-answers_example :
    answers check_binding (5 ∷ 5 ∷ 2000 ∷ []) [] ≡ answers accept (5 ∷ 5 ∷ 2000 ∷ []) []
check_binding-answers_example =
    check_binding-answers (5 ∷ 5 ∷ 2000 ∷ []) (omega arith, (omega arith, (omega arith, tt)))

abbrev calls : Calls
calls = record { last_pid = some (codes "42\n"); opens_device = true; written = length }

abbrev shown : Shown
shown = record { prv_val = []; device = [] }

do_check_pids-IsShown_example :
    (line : Bytes) × (calls.last_pid ≡ some line)
    × (c_str (do_check_pids calls shown).1.device ≡ c_str (take 15 line))
    × IsShown (do_check_pids calls shown).1
do_check_pids-IsShown_example =
    do_check_pids-IsShown calls shown (unfold c_str in refl) (λ s. refl)
      (unfold do_check_pids store_pid same c_str in refl)

abbrev start : State
start = record { last = []; shown = shown }

abbrev no_signal : Sigterm
no_signal = record { before = false; after = false }

-- a SIGTERM in the sleep behind a check
abbrev late : Sigterm
late = record { before = false; after = true }

abbrev events : List Event
events = quiet no_signal calls ∷ changed late [] ∷ quiet no_signal calls ∷ []

abbrev final : Bool × State
final =
    (false, record { last = []; shown = record { prv_val = codes "42\n"; device = codes "42\n" } })

ends : mon_monitoring true no_signal (none ∷ []) events start ≡ some final
unfolding mon_monitoring watch round do_check_mounts do_check_pids store_pid same c_str
ends = refl

mon_monitoring-Outcome_example : Outcome true no_signal (none ∷ []) events start final
mon_monitoring-Outcome_example =
    mon_monitoring-Outcome true no_signal (none ∷ []) events start final ends
