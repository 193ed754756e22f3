-- ===== src/Status/Traffic.antt =====
-- The traffic of a network interface, lib/utlsys.c: collect_count and get_bandwidth_info. A file is
-- its bytes, or `none` if it cannot be opened.
use vzgot.Base.{ℕ, Bool, true, false, ◌&&◌, Option, none, some, ◌==◌, if◌then◌else◌}
use vzgot.Text.{Bytes}
use vzgot.Meminfo.{sub64}
use vzgot.CpuLimit.{first_line}
use vzgot.Status.Numbers.{Doubles}

module _ (d : Doubles) where
  -- BANTYP
  pub record Ban : Type 0 where
    pub cumulated : ℕ
    pub speed : d.Double

  -- ---- collect_count ----

  -- phases 3 and 4
  unfoldable pub count_from : d.Double → ℕ → Ban → Ban
  count_from delta_t counter b =
      if b.cumulated == 0 then record b { cumulated = counter } else record {
        cumulated = counter;
        speed = d.over (d.of_u64 (sub64 counter b.cumulated)) delta_t;
      }

  -- `scan` is "%llu"
  unfoldable pub collect_count : (Bytes → Option ℕ) → d.Double → Option Bytes → Ban → Bool × Ban
  unfolding count_from
  collect_count scan delta_t file b = elim (first_line 198 file) [
    | none ↦ (false, b)
    | some line ↦ elim (scan line) [
      | none ↦ (false, b)
      | some counter ↦ (true, count_from delta_t counter b)
    ]
  ]

  -- the two counters of an interface, received and sent
  pub record Network : Type 0 where
    pub received : Ban
    pub sent : Ban

  unfoldable pub get_bandwidth_info :
      (Bytes → Option ℕ) → d.Double → Option Bytes → Option Bytes → Network → Bool × Network
  unfolding collect_count
  get_bandwidth_info scan delta_t rx_bytes tx_bytes n =
      let rx = collect_count scan delta_t rx_bytes n.received in
      let tx = collect_count scan delta_t tx_bytes n.sent in
      (rx.0 && tx.0, record { received = rx.1; sent = tx.1 })
