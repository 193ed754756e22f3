-- ===== src/Limits/Examples.antt =====
-- A container with limits, and the theorems on them; a number of type double is a whole one here.
use vzgot.Base.{ℕ, ◌*◌, ◌/◌, ◌≡◌, refl, true, none, some, [], if◌then◌else◌, pos}
use vzgot.Text.{codes, same}
use vzgot.Sysfs.{World, number, call, write_sys_long, open_and_write}
use vzgot.Sysfs.Calm.{Grows}
use vzgot.Limits.{
  Doubles, Host, cgroup_limits, set_limits, set_limit, set_mem_max, store_mem, total_swap,
}
use vzgot.Limits.Floors.{IsFair, cgroup_limits-IsFair}
use vzgot.Limits.Swap.{swap_stored, cgroup_limits-swap}

abbrev whole : Doubles
whole = record {
  Double = ℕ;
  zero_point = 0;
  of_u64 = λ n. n;
  times = λ a b. a * b;
  percent = λ a. a / 100;
  to_u64 = λ n. n;
  to_long = λ n. pos n;
  strtod = λ s. (50, []);
}

abbrev half_of_all : Host
half_of_all = record {
  pid_max = none;
  strtoll = λ s. (0, []);
  sysinfo =
      some record { totalram = 1024; freeram = 0; totalswap = 4096; freeswap = 0; mem_unit = 1 };
  getenv = λ name.
      if same name (codes "MEMMAX")
      then some (codes "50")
      else if same name (codes "SWAPMAX")
      then some (codes "50")
      else none;
}

abbrev willing : World
willing = record { answer = λ t op. true }

cgroup_limits-IsFair_example :
    Grows IsFair [] (cgroup_limits whole willing half_of_all (codes "web") []).1
cgroup_limits-IsFair_example = cgroup_limits-IsFair whole willing half_of_all (codes "web") []

all_set : (cgroup_limits whole willing half_of_all (codes "web") []).0 ≡ true
unfolding cgroup_limits set_limits set_limit set_mem_max store_mem write_sys_long open_and_write
    call same
all_set = refl

cgroup_limits-swap_example :
    swap_stored (cgroup_limits whole willing half_of_all (codes "web") []).1
    ≡ some (
        number (
          total_swap whole
            record { totalram = 1024; freeram = 0; totalswap = 4096; freeswap = 0; mem_unit = 1 }
            (codes "50")))
cgroup_limits-swap_example =
    cgroup_limits-swap whole willing half_of_all (codes "web") (λ t dir file. refl)
      (λ t dir file datum. refl) (codes "50") _ refl [] (unfold same in refl) all_set
