-- ===== src/Status/Shown.antt =====
-- The load average shown for a container, lib/utlsys.c: sys_cal_loadavg.
use vzgot.Base.{
  ℕ, ◌≡◌, ◌≢◌, refl, Bool, true, false, Bool-cases, Option-cases, arith, none, some, ◌⊎◌, inl, inr,
  ◌==◌,
}
use vzgot.Meminfo.{sub64}
use vzgot.Account.{Averages}
use vzgot.Status.Numbers.{Doubles}
use vzgot.Status.Memory.{number_or}
use vzgot.Status.Stat.{CpuInf}
use vzgot.Status.Load.{
  LoadFiles, Loads, ratio_of, load_of, scale_avgs, read_pids, read_load, cal_loadavg,
  get_host_loadavg, get_last_pid, cnt_pids_current,
}

module _ (d : Doubles) where
  -- the ratio for the container's time and the host's: their quotient, but 1 at most, and 0 where
  -- the host's is not above 0
  pub data IsRatio (cont host : d.Double) : d.Double → Type 0 where
    still : d.lt d.nought host ≡ false → IsRatio cont host d.nought
    limited :
        d.lt d.nought host ≡ true → d.lt d.one (d.over cont host) ≡ true → IsRatio cont host d.one
    part :
        d.lt d.nought host ≡ true
        → d.lt d.one (d.over cont host) ≡ false
        → IsRatio cont host (d.over cont host)

  ratio_of-IsRatio :
      (delta_cont delta_host : ℕ)
      → IsRatio (d.of_u64 delta_cont) (d.of_u64 delta_host) (ratio_of d delta_cont delta_host)
  unfolding ratio_of
  ratio_of-IsRatio delta_cont delta_host =
      let ratio = d.over (d.of_u64 delta_cont) (d.of_u64 delta_host) in
      elim (Bool-cases (d.lt d.nought (d.of_u64 delta_host))) [
        | inl runs ↦ elim (Bool-cases (d.lt d.one ratio)) [
          | inl large ↦ rw (runs, large) (limited runs large)
          | inr small ↦ rw (runs, small) (part runs small)
        ]
        | inr stands ↦ rw stands (still stands)
      ]

  -- neither the first call nor within 10 ms of the last one
  abbrev pub IsPaced : d.Double → Loads d → Type 0
  IsPaced delta_t last = (last.host ≢ 0) × (d.lt delta_t d.min_pace ≡ false)

  -- the loads that the next call compares with
  abbrev pub now_of : CpuInf → CpuInf → Loads d → Loads d
  now_of host cont last = record last { host = load_of d host; cont = load_of d cont }

  -- what a call does to the text
  pub data Outcome (delta_t : d.Double) (f : LoadFiles d) (last now : Loads d)
      : Bool × Loads d → Type 0 where
    -- the first time, or too early: the text stays
    early :
        (last.host ≡ 0) ⊎ (d.lt delta_t d.min_pace ≡ true) → Outcome delta_t f last now (false, now)
    -- a file is not read: no averages are shown
    lost :
        (pid : ℕ)
        → IsPaced delta_t last
        → (get_host_loadavg d f ≡ none) ⊎ (cnt_pids_current d f ≡ none)
        → Outcome delta_t f last now (false, record now { last_pid = pid; text = none })
    shown :
        (ratio : d.Double) (avgs : Averages d.Double) (pids pid : ℕ)
        → IsPaced delta_t last
        → IsRatio (d.of_u64 (sub64 now.cont last.cont)) (d.of_u64 (sub64 now.host last.host)) ratio
        → get_host_loadavg d f ≡ some avgs
        → cnt_pids_current d f ≡ some pids
        → pid ≡ number_or last.last_pid (get_last_pid d f)
        → Outcome delta_t f last now (
          true,
          record now {
            pids_current = pids;
            last_pid = pid;
            text = some (scale_avgs d ratio avgs, pids, pid);
          },
        )

  module _ (delta_t : d.Double) (f : LoadFiles d) (host cont : CpuInf) (last : Loads d) where
    read_load-Outcome :
        (ratio : d.Double)
        → IsPaced delta_t last
        → IsRatio
            (d.of_u64 (sub64 (load_of d cont) last.cont))
            (d.of_u64 (sub64 (load_of d host) last.host))
            ratio
        → Outcome delta_t f last
            (now_of host cont last)
            (read_load d f ratio (now_of host cont last))
    unfolding read_load read_pids
    read_load-Outcome ratio paced is = elim (Option-cases (get_host_loadavg d f)) [
      | inl no_avgs ↦ rw (no_avgs, read_load) (lost last.last_pid paced (inl no_avgs))
      | inr (avgs, some_avgs) ↦ elim (Option-cases (cnt_pids_current d f)) [
        | inl no_pids ↦ rw (some_avgs, read_load, no_pids, read_pids) (lost _ paced (inr no_pids))
        | inr (pids, some_pids) ↦
            rw (some_avgs, read_load, some_pids, read_pids)
              (shown ratio avgs pids _ paced is some_avgs some_pids refl)
      ]
    ]

    -- A call of sys_cal_loadavg ends in one of three ways. If it is the first or within 10 ms of the
    -- last one, the text stays. Otherwise, if the averages of the host or the number of processes
    -- is not read, no averages are shown; and else the averages of the host are shown, each times
    -- one ratio, with the number of processes and the last pid. This ratio is the container's load
    -- since the last call over the host's, but 1 where that is above 1, and 0 where the host's is
    -- not above 0. The two loads are stored every time.
    pub cal_loadavg-Outcome :
        Outcome delta_t f last (now_of host cont last) (cal_loadavg d delta_t f host cont last)
    unfolding cal_loadavg
    cal_loadavg-Outcome =
        let ratio =
          ratio_of d (sub64 (load_of d cont) last.cont) (sub64 (load_of d host) last.host) in
        elim (Bool-cases (last.host == 0)) [
          | inl first ↦ rw first (early (inl (ground arith)))
          | inr later ↦ elim (Bool-cases (d.lt delta_t d.min_pace)) [
            | inl soon ↦ rw (later, soon) (early (inr soon))
            | inr paced ↦
                rw (later, paced)
                  (read_load-Outcome ratio (λ e. ground arith, paced) (ratio_of-IsRatio _ _))
          ]
        ]
