-- ===== src/CpuLimit/Examples.antt =====
-- A weight and a ceiling, and the theorems on them.
use vzgot.Base.{ℕ, ◌*◌, ◌/◌, ◌≡◌, refl, true, none, some, []}
use vzgot.Text.{codes}
use vzgot.Pid.{print_number, to_digits}
use vzgot.Sysfs.{World}
use vzgot.Sysfs.Calm.{Grows}
use vzgot.CpuLimit.{Doubles, Host, consigne, set_cont_weight, set_root_weight, read_weight}
use vzgot.CpuLimit.Range.{IsWeight, set_cont_weight-IsWeight}

abbrev whole : Doubles
whole = record {
  Double = ℕ;
  share = λ n ratio. n * ratio / 100;
  usage = λ ratio numcpu. ratio * numcpu * 100000 / 100;
}

abbrev host : Host
host = record {
  strtoll = λ s. (250, []);
  getenv = λ name. some (codes "250");
  root_weight = λ t. some (codes "250\n");
  cont_weight = none;
  cpu_max_file = none;
  cpuset_file = none;
  scan_max = λ s. none;
}

abbrev willing : World
willing = record { answer = λ t op. true }

set_cont_weight-IsWeight_example :
    Grows IsWeight [] (set_cont_weight whole willing host (codes "web") 50 []).1
    × ((set_cont_weight whole willing host (codes "web") 50 []).0
        ≡ (read_weight whole willing host
            (codes "web")
            (set_root_weight whole willing host (codes "web") []).1).0)
set_cont_weight-IsWeight_example = set_cont_weight-IsWeight whole willing host (codes "web") 50 []

consigne_test : consigne 2 100000 ≡ codes "100000 100000"
unfolding consigne print_number to_digits
consigne_test = refl
