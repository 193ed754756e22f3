-- ===== src/CpuSet/Examples.antt =====
-- A host of two processors, and the theorem on it; a number of type double is a whole one here, 1
-- above what it stands for.
use vzgot.Base.{
  ℕ, ◌+◌, ◌-◌, ◌≡◌, refl, ap, arith, [], true, none, some, ◌==◌, ◌||◌, ltb, if◌then◌else◌, pos,
}
use vzgot.Text.{codes, same, line_of, c_str}
use vzgot.Template.Voc.{begins}
use vzgot.CpuSet.{
  CpuSet, Phycpu, Doubles, Host, Weights, get_cpu_host_list, count_cpus, read_stat, get_weights,
  scan_line, set_weight, prepare, cpuselector, rounds,
}
use vzgot.CpuSet.Picks.{IsChoice, picks_of, first_draw, chosen, cpuselector-IsChoice}

abbrev whole : Doubles
whole = record {
  Double = ℕ;
  zero_point = 1;
  minus_one = 0;
  hundred = 101;
  add = λ a b. a + b - 1;
  sub = λ a b. a + 1 - b;
  lt = ltb;
  inverse = λ n. 11;
  scaled = λ r sum_w. r;
  part = λ n ratio. pos 1;
}

abbrev both : CpuSet
both cpu = cpu == 0 || cpu == 1

abbrev host : Host
host = record {
  configured = some 2;
  online = some 2;
  affinity = some both;
  stat = some (codes "cpu 3\ncpu0 1\ncpu1 2\n");
  scan = λ s. some (if same s (codes "cpu0 1\n") then (0, 1, 0, 0) else (1, 2, 0, 0));
  rand = λ n. 1;
  opens = true;
}

abbrev hostcpus : Phycpu
hostcpus = record { maxcpu = pos 2; maxavail = pos 2; selected = pos 2; allocated = both }

abbrev weights : Weights whole
weights = set_weight whole 1 11 (set_weight whole 0 11 (λ cpu. 1))

cpuselector-IsChoice_example :
    (set : CpuSet) × (cpuselector whole host 51 hostcpus
      ≡ some (chosen whole host (prepare whole 51 hostcpus) set))
    × IsChoice whole hostcpus 2
        (rounds (prepare whole 51 hostcpus).selected)
        (picks_of whole host 2
          (rounds (prepare whole 51 hostcpus).selected)
          0
          (first_draw whole weights 21)
          [])
        set
cpuselector-IsChoice_example =
    cpuselector-IsChoice whole host 51 hostcpus hostcpus 1 weights 21 refl
      (λ x y. ap (ltb y) (omega arith)) (unfold get_cpu_host_list count_cpus in refl) refl
      (unfold read_stat get_weights scan_line line_of c_str begins same in refl)

-- an error of `sysconf` is no failure
unknown_test : (get_cpu_host_list record host { configured = none; online = some 2 }).0 ≡ true
unfolding get_cpu_host_list
unknown_test = refl
