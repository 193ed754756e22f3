-- ===== src/Status/Update.antt =====
-- What an update of the status of a container does, lib/utlsys.c: sys_update_cont_status.
use vzgot.Base.{ℕ, ◌≡◌, Bool, true, false, none, some, List}
use vzgot.Text.{Bytes}
use vzgot.Account.{count_users}
use vzgot.Status.Numbers.{Doubles}
use vzgot.Status.Load.{cal_loadavg}
use vzgot.Status.Stat.{get_cpustat}
use vzgot.Status.Traffic.{get_bandwidth_info}
use vzgot.Status.Memory.{get_memory_info, get_memory_stress}
use vzgot.Status.{Readings, Status, get_cpu_idle}

module _ (d : Doubles) where
  -- what one update makes of a status
  pub data Outcome (r : Readings d) (s : Status d) : Bool × Status d → Type 0 where
    no_clock : r.delta ≡ none → Outcome r s (false, record s { delta_t = d.nought })
    no_users :
        (delta : d.Double)
        → r.delta ≡ some delta
        → r.users ≡ none
        → Outcome r s (false, record s { delta_t = delta })
    updated :
        (delta : d.Double) (entries : List (ℕ × Bytes))
        → r.delta ≡ some delta
        → r.users ≡ some entries
        → (s' : Status d) → s'.delta_t ≡ delta
        → s'.nbruser ≡ count_users entries 0
        → (s'.start ≡ s.start) × (s'.numcpu ≡ s.numcpu)
        → (s'.mem_host ≡ (get_memory_info r.mem_host_files s.mem_host).1)
          × (s'.swap_host ≡ (get_memory_info r.swap_host_files s.swap_host).1)
          × (s'.mem_cont ≡ (get_memory_info r.mem_cont_files s.mem_cont).1)
          × (s'.swap_cont ≡ (get_memory_info r.swap_cont_files s.swap_cont).1)
        → (s'.oom_host ≡ (get_memory_stress r.stress_host s.oom_host).1)
          × (s'.oom_cont ≡ (get_memory_stress r.stress_cont s.oom_cont).1)
        → s'.cpu_host ≡ (get_cpustat r.stat_host s.cpu_host).1
        → s'.cpu_cont ≡ (get_cpustat r.stat_cont s.cpu_cont).1
        → s'.loads ≡ (cal_loadavg d delta r.load_files s'.cpu_host s'.cpu_cont s.loads).1
        → s'.cpuidle ≡ get_cpu_idle d r.time s.start s.numcpu s'.cpu_cont.usage
        → s'.net_host ≡ (get_bandwidth_info d r.scan delta r.rx_host r.tx_host s.net_host).1
        → s'.net_cont ≡ (get_bandwidth_info d r.scan delta r.rx_cont r.tx_cont s.net_cont).1
        → Outcome r s (true, s')
