-- ===== src/Pid/Examples.antt =====
-- Small files, and the theorems on them.
use vzgot.Base.{
  ℕ, ◌≡◌, refl, Bool, true, false, Option, none, some, [], ◌∷◌, arith, ◌==◌, if◌then◌else◌,
}
use vzgot.Text.{codes}
use vzgot.Pid.{
  Writing, print_number, to_digits, set_cont_pid, get_cont_pid, get_monitoring_pid, behind,
}
use vzgot.Pid.File.{get-set_cont_pid}
use vzgot.Pid.Monitor.{Info, IsStatus, IsGood, file_of, first_inner, get_monitoring_pid-first}

print_test : print_number 40712 ≡ codes "40712"
unfolding print_number to_digits
print_test = refl

abbrev all_well : Writing
all_well = record { opens = true; prints = true; flushes = true }

get-set_cont_pid_example : get_cont_pid (set_cont_pid all_well 40712 none).1 ≡ 40712
get-set_cont_pid_example =
    get-set_cont_pid all_well 40712 none (omega arith) (unfold set_cont_pid in refl)

abbrev init : Info
init = record { before = codes "Name:\tinit" ∷ []; host = 40712; inner = 1; after = [] }

abbrev monitor : Info
monitor = record { before = codes "Name:\tvzmon" ∷ []; host = 40713; inner = 2; after = codes "x" }

-- the child 7 is gone, 5 is init, all others are monitors
abbrev info : ℕ → Option Info
info c = if c == 7 then none else if c == 5 then some init else some monitor

init-IsStatus : IsStatus init
unfolding behind
init-IsStatus = record {
  others = (((omega arith), omega arith, refl), tt);
  host_pid = omega arith;
  inner_pid = omega arith;
}

monitor-IsStatus : IsStatus monitor
unfolding behind
monitor-IsStatus = record {
  others = (((omega arith), omega arith, refl), tt);
  host_pid = omega arith;
  inner_pid = omega arith;
}

info-IsGood : (c : ℕ) → IsGood (info c)
info-IsGood c = seven (c == 7) (c == 5)
  where
    seven : (b b' : Bool) → IsGood (if b then none else if b' then some init else some monitor)
    seven true b' = tt
    seven false true = init-IsStatus
    seven false false = monitor-IsStatus

get_monitoring_pid-first_example :
    get_monitoring_pid (λ c. file_of (info c)) (some (5 ∷ 9 ∷ 7 ∷ []))
    ≡ first_inner info (5 ∷ 9 ∷ 7 ∷ [])
get_monitoring_pid-first_example =
    get_monitoring_pid-first info (λ c. file_of (info c)) (5 ∷ 9 ∷ 7 ∷ []) info-IsGood (λ c. refl)

first_test : first_inner info (5 ∷ 9 ∷ 7 ∷ []) ≡ 9
unfolding first_inner
first_test = refl
