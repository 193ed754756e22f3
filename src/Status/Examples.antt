-- ===== src/Status/Examples.antt =====
-- A status, and the theorems on it; a number of type double is a whole one here.
use vzgot.Base.{ℕ, ◌*◌, ◌/◌, ◌≡◌, refl, false, none, some, [], ◌∷◌, inr, ltb, length, if◌then◌else◌}
use vzgot.Text.{codes, same, line_of, c_str}
use vzgot.CpuLimit.{first_line}
use vzgot.Status.Numbers.{Doubles}
use vzgot.Status.Memory.{MemFiles, StressFiles, MemInf, get_memory_info}
use vzgot.Status.Stat.{CpuInf, StatFiles}
use vzgot.Status.Load.{LoadFiles, Loads, cal_loadavg}
use vzgot.Status.Traffic.{Network}
use vzgot.Status.{Readings, Status}
use vzgot.Status.Scale.{IsShown, get_memory_info-IsShown}
use vzgot.Status.Shown
use vzgot.Status.Update

abbrev whole : Doubles
whole = record {
  Double = ℕ;
  nought = 0;
  one = 1;
  lt = ltb;
  times = λ a b. a * b;
  over = λ a b. a / b;
  of_u64 = λ n. n;
  of_i64 = λ n. n;
  min_pace = 1;
}

abbrev mem_files : MemFiles
mem_files = record {
  total = some 4096;
  max_file = some (codes "12345\n");
  used_file = some (codes "678\n");
  scan = λ s. some (length s);
}

abbrev no_mem : MemInf
no_mem = record { max = 0; used = 0; quotient = 0; unit = [] }

get_memory_info-IsShown_example :
    ((get_memory_info mem_files no_mem).0 ≡ false)
    × IsShown 6 4 (get_memory_info mem_files no_mem).1
get_memory_info-IsShown_example =
    get_memory_info-IsShown mem_files no_mem 4096 6 4 (codes "12345\n") (codes "678\n") refl
      (unfold first_line line_of c_str in refl) (unfold first_line line_of c_str in refl)
      (inr ((unfold same in refl), refl)) refl

abbrev load_files : LoadFiles whole
load_files = record {
  loadavg_file = some (codes "1.00 2.00 3.00 1/90 7");
  lastpid_file = some (codes "42");
  pids_file = some (codes "5");
  scan_avgs = λ s. some (1, 2, 3);
  scan_d = λ s. some 42;
  scan_u = λ s. some 5;
}

abbrev loads : Loads whole
loads = record { host = 100; cont = 50; pids_current = 0; last_pid = 0; text = none }

abbrev cpu : ℕ → CpuInf
cpu n = record { usage = n; pressure = 0; throttled = 0; nr_throttled = 0 }

cal_loadavg-Outcome_example :
    Shown.Outcome whole 2 load_files loads
      (Shown.now_of whole (cpu 200) (cpu 140) loads)
      (cal_loadavg whole 2 load_files (cpu 200) (cpu 140) loads)
cal_loadavg-Outcome_example = Shown.cal_loadavg-Outcome whole 2 load_files (cpu 200) (cpu 140) loads

abbrev stress : StressFiles ℕ
stress = record {
  events = some (codes "oom 1\noom_kill 3\n");
  pressure = none;
  scan_oom = λ s. if same s (codes "oom 1\n") then none else some 3;
  scan_some = λ s. none;
}

abbrev stat : StatFiles
stat = record {
  stat = some (codes "usage_usec 9\n");
  pressure_file = none;
  scan_pair = λ s. some (codes "usage_usec", 9);
  scan_total = λ s. none;
}

abbrev readings : Readings whole
readings = record {
  delta = some 2;
  users = some ((7, codes "ann") ∷ []);
  mem_host_files = mem_files;
  swap_host_files = mem_files;
  mem_cont_files = mem_files;
  swap_cont_files = mem_files;
  stress_host = stress;
  stress_cont = stress;
  stat_host = stat;
  stat_cont = stat;
  time = 1000;
  load_files = load_files;
  scan = λ s. some (length s);
  rx_host = some (codes "12");
  tx_host = none;
  rx_cont = some (codes "345");
  tx_cont = none;
}

abbrev quiet : Network whole
quiet = record {
  received = record { cumulated = 1; speed = 0 };
  sent = record { cumulated = 0; speed = 0 };
}

abbrev status : Status whole
status = record {
  start = 10;
  numcpu = 2;
  delta_t = 0;
  nbruser = 4;
  mem_host = no_mem;
  swap_host = no_mem;
  mem_cont = no_mem;
  swap_cont = no_mem;
  oom_host = record { avg10 = 0; oom_kill = 0 };
  oom_cont = record { avg10 = 0; oom_kill = 0 };
  cpu_host = cpu 100;
  cpu_cont = cpu 50;
  cpuidle = 0;
  loads = loads;
  net_host = quiet;
  net_cont = quiet;
}
