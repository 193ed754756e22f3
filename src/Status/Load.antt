-- ===== src/Status/Load.antt =====
-- The load average of a container, lib/utlsys.c: sys_cal_loadavg with sys_get_host_loadavg,
-- sys_get_last_pid and cnt_pids_current. A file is its bytes, or `none` if it cannot be opened; the
-- conversions of `sscanf` are parameters.
use vzgot.Base.{ℕ, ◌+◌, ◌^◌, ◌%◌, Bool, true, false, Option, none, some, ◌==◌, if◌then◌else◌}
use vzgot.Text.{Bytes}
use vzgot.Meminfo.{sub64}
use vzgot.Account.{Averages}
use vzgot.CpuLimit.{first_line}
use vzgot.Status.Numbers.{Doubles}
use vzgot.Status.Memory.{number_or}
use vzgot.Status.Stat.{CpuInf}

module _ (d : Doubles) where
  -- what is read, with the formats "%lf %lf %lf", "%d" and "%u" of `sscanf`
  pub record LoadFiles : Type 0 where
    pub loadavg_file : Option Bytes
    pub lastpid_file : Option Bytes
    pub pids_file : Option Bytes
    pub scan_avgs : Bytes → Option (Averages d.Double)
    pub scan_d : Bytes → Option ℕ
    pub scan_u : Bytes → Option ℕ

  abbrev pub scan_line : {A : Type 0} → (Bytes → Option A) → Option Bytes → Option A
  scan_line scan none = none
  scan_line scan (some line) = scan line

  -- what `avgs` holds after a failure is not used
  unfoldable pub get_host_loadavg : LoadFiles → Option (Averages d.Double)
  get_host_loadavg f = scan_line f.scan_avgs (first_line 199 f.loadavg_file)

  unfoldable pub get_last_pid : LoadFiles → Option ℕ
  get_last_pid f = scan_line f.scan_d (first_line 28 f.lastpid_file)

  unfoldable pub cnt_pids_current : LoadFiles → Option ℕ
  cnt_pids_current f = scan_line f.scan_u (first_line 99 f.pids_file)

  -- The static variables and the fields of STATYP that are changed. The text is the averages, the
  -- number of processes and the last pid, or `none` for ZEROAVG.
  pub record Loads : Type 0 where
    pub host : ℕ
    pub cont : ℕ
    pub pids_current : ℕ
    pub last_pid : ℕ
    pub text : Option (Averages d.Double × ℕ × ℕ)

  -- phase 2; without time on the host the ratio stays 0
  unfoldable pub ratio_of : ℕ → ℕ → d.Double
  ratio_of delta_cont delta_host =
      let ratio = d.over (d.of_u64 delta_cont) (d.of_u64 delta_host) in
      if d.lt d.nought (d.of_u64 delta_host)
      then (if d.lt d.one ratio then d.one else ratio)
      else d.nought

  abbrev pub load_of : CpuInf → ℕ
  load_of c = (c.usage + c.pressure) % 2 ^ 64

  abbrev pub scale_avgs : d.Double → Averages d.Double → Averages d.Double
  scale_avgs r (a, b, c) = (d.times a r, d.times b r, d.times c r)

  -- phase 5
  abbrev pub show_load : d.Double → Averages d.Double → ℕ → Loads → Loads
  show_load ratio avgs pids l = record l {
    pids_current = pids;
    text = some (scale_avgs ratio avgs, pids, l.last_pid);
  }

  -- phases 4 and 5
  unfoldable pub read_pids : LoadFiles → d.Double → Averages d.Double → Loads → Bool × Loads
  unfolding get_last_pid cnt_pids_current
  read_pids f ratio avgs l =
      let l' = record l { last_pid = number_or l.last_pid (get_last_pid f); text = none } in
      elim (cnt_pids_current f) [
        | none ↦ (false, l')
        | some pids ↦ (true, show_load ratio avgs pids l')
      ]

  -- phases 3 to 5, with the ratio of phase 2
  unfoldable pub read_load : LoadFiles → d.Double → Loads → Bool × Loads
  unfolding get_host_loadavg read_pids
  read_load f ratio l = elim (get_host_loadavg f) [
    | none ↦ (false, record l { text = none })
    | some avgs ↦ read_pids f ratio avgs l
  ]

  unfoldable pub cal_loadavg : d.Double → LoadFiles → CpuInf → CpuInf → Loads → Bool × Loads
  unfolding ratio_of read_load
  cal_loadavg delta_t f host cont last =
      let now = record last { host = load_of host; cont = load_of cont } in
      let ratio = ratio_of (sub64 (load_of cont) last.cont) (sub64 (load_of host) last.host) in
      if last.host == 0
      then (false, now)
      else if d.lt delta_t d.min_pace
      then (false, now)
      else read_load f ratio now
