-- ===== src/Cgroup/Examples.antt =====
-- A start, and the theorem on it.
use vzgot.Base.{[], true, none, pos}
use vzgot.Text.{codes}
use vzgot.Sysfs.{World}
use vzgot.Limits.{Doubles, Host}
use vzgot.Cgroup.{set_cgroup}
use vzgot.Cgroup.Guard.{Guarded, set_cgroup-Guarded}

abbrev no_doubles : Doubles
no_doubles = record {
  Double = Unit {0};
  zero_point = tt;
  of_u64 = λ n. tt;
  times = λ a b. tt;
  percent = λ a. tt;
  to_u64 = λ n. 0;
  to_long = λ n. pos 0;
  strtod = λ s. (tt, []);
}

abbrev no_limits : Host
no_limits = record { pid_max = none; strtoll = λ s. (0, []); sysinfo = none; getenv = λ name. none }

abbrev willing : World
willing = record { answer = λ t op. true }

set_cgroup-Guarded_example :
    Guarded (codes "web") (set_cgroup willing (codes "web") no_doubles no_limits 12 []).1
set_cgroup-Guarded_example = set_cgroup-Guarded (codes "web") willing no_doubles no_limits 12 [] tt
