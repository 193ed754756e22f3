-- ===== src/Status.antt =====
-- The status of a container, lib/utlsys.c: sys_update_cont_status with update_users and
-- sys_get_cpu_idle. Status.Memory has get_memory_info and get_memory_stress, Status.Stat
-- sys_get_cpustat, Status.Load sys_cal_loadavg and Status.Traffic get_bandwidth_info. A file is its
-- bytes, or `none` if it cannot be opened; the type double and the conversions of the C library
-- are parameters.
pub mod Numbers
pub mod Memory
pub mod Stat
pub mod Load
pub mod Traffic
pub mod Scale
pub mod Shown
pub mod Update
mod Examples
use vzgot.Base.{ℕ, zero, suc, ◌*◌, ◌^◌, ◌%◌, Bool, true, false, Option, none, some, List}
use vzgot.Text.{Bytes}
use vzgot.Meminfo.{sub64, mul64}
use vzgot.Account.{upd_users}
use vzgot.Status.Numbers.{Doubles}
use vzgot.Status.Memory.{MemInf, OomInf, MemFiles, StressFiles, get_memory_info, get_memory_stress}
use vzgot.Status.Stat.{CpuInf, StatFiles, get_cpustat}
use vzgot.Status.Load.{LoadFiles, Loads, cal_loadavg}
use vzgot.Status.Traffic.{Network, get_bandwidth_info}

module _ (d : Doubles) where
  -- ---- sys_get_cpu_idle ----

  -- the arithmetic is that of `u_vlong`; `now` is in microseconds
  unfoldable pub get_cpu_idle : ℕ → ℕ → ℕ → ℕ → d.Double
  get_cpu_idle now start numcpu usage =
      let working = mul64 (sub64 now start) numcpu in
      d.over (d.of_u64 (mul64 (sub64 working usage) 100)) (d.of_i64 working)

  -- ---- sys_update_cont_status ----

  -- the fields of STATYP that the update changes, and the two that it reads
  pub record Status : Type 0 where
    pub start : ℕ
    pub numcpu : ℕ
    pub delta_t : d.Double
    pub nbruser : ℕ
    pub mem_host : MemInf
    pub swap_host : MemInf
    pub mem_cont : MemInf
    pub swap_cont : MemInf
    pub oom_host : OomInf d.Double
    pub oom_cont : OomInf d.Double
    pub cpu_host : CpuInf
    pub cpu_cont : CpuInf
    pub cpuidle : d.Double
    pub loads : Loads d
    pub net_host : Network d
    pub net_cont : Network d

  -- what is read
  pub record Readings : Type 0 where
    -- the time since the last update; `none` if the clock fails
    pub delta : Option d.Double
    -- the entries of utmp; `none` without read access
    pub users : Option (List (ℕ × Bytes))
    pub mem_host_files : MemFiles
    pub swap_host_files : MemFiles
    pub mem_cont_files : MemFiles
    pub swap_cont_files : MemFiles
    pub stress_host : StressFiles d.Double
    pub stress_cont : StressFiles d.Double
    pub stat_host : StatFiles
    pub stat_cont : StatFiles
    -- `gettimeofday`
    pub time : ℕ
    pub load_files : LoadFiles d
    pub scan : Bytes → Option ℕ
    pub rx_host : Option Bytes
    pub tx_host : Option Bytes
    pub rx_cont : Option Bytes
    pub tx_cont : Option Bytes

  -- phases 4 to 6
  unfoldable pub update_rest : Readings → Status → Status
  unfolding get_cpu_idle
  update_rest r s =
      let host = (get_cpustat r.stat_host s.cpu_host).1 in
      let cont = (get_cpustat r.stat_cont s.cpu_cont).1 in
      record s {
        mem_host = (get_memory_info r.mem_host_files s.mem_host).1;
        swap_host = (get_memory_info r.swap_host_files s.swap_host).1;
        mem_cont = (get_memory_info r.mem_cont_files s.mem_cont).1;
        swap_cont = (get_memory_info r.swap_cont_files s.swap_cont).1;
        oom_host = (get_memory_stress r.stress_host s.oom_host).1;
        oom_cont = (get_memory_stress r.stress_cont s.oom_cont).1;
        cpu_host = host;
        cpu_cont = cont;
        cpuidle = get_cpu_idle r.time s.start s.numcpu cont.usage;
        loads = (cal_loadavg d s.delta_t r.load_files host cont s.loads).1;
        net_host = (get_bandwidth_info d r.scan s.delta_t r.rx_host r.tx_host s.net_host).1;
        net_cont = (get_bandwidth_info d r.scan s.delta_t r.rx_cont r.tx_cont s.net_cont).1;
      }

  abbrev pub with_users : Readings → Status → Bool × ℕ → Bool × Status
  with_users r s (false, n) = (false, s)
  with_users r s (true, n) = (true, update_rest r (record s { nbruser = n }))

  unfoldable pub update_cont_status : Readings → Status → Bool × Status
  unfolding update_rest
  update_cont_status r s = elim r.delta [
    | none ↦ (false, record s { delta_t = d.nought })
    | some delta ↦ with_users r (record s { delta_t = delta }) (upd_users r.users s.nbruser)
  ]
