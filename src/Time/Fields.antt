-- ===== src/Time/Fields.antt =====
-- The fields of a duration against the duration.
use vzgot.Base.{ℕ, ◌+◌, ◌-◌, ◌*◌, ◌/◌, ◌%◌, ◌≤◌, ◌<◌, ◌≡◌, refl, true, some, leb, arith}
use vzgot.Time.{Chrono, chrono_ms, uptime}

-- the duration in milliseconds that fields stand for
unfoldable pub total : Chrono → ℕ
total c = (((c.jours * 24 + c.heures) * 60 + c.minutes) * 60 + c.secondes) * 1000 + c.ms

-- every field but the days is below the next one's unit
pub record InRange (c : Chrono) : Type 0 where
  pub heures : c.heures < 24
  pub minutes : c.minutes < 60
  pub secondes : c.secondes < 60
  pub ms : c.ms < 1000

-- the fields of seconds
seconds_total :
    (sec : ℕ)
    → ((sec / 86400 * 24 + sec % 86400 / 3600) * 60 + sec % 86400 % 3600 / 60) * 60
        + sec % 86400 % 3600 % 60
      ≡ sec
seconds_total sec = omega arith

-- apl_chrono_ms gives fields that are in range and stand for exactly the duration.
pub chrono_ms-total : (ms : ℕ) → InRange (chrono_ms ms) × (total (chrono_ms ms) ≡ ms)
unfolding chrono_ms total
chrono_ms-total ms =
    let sec = ms / 1000 in
    let e = seconds_total sec in
    (
      record {
        heures = omega arith;
        minutes = omega arith;
        secondes = omega arith;
        ms = omega arith;
      },
      omega arith,
    )

-- From the start on, apl_uptime gives fields that are in range and stand for the whole seconds
-- between the start, cut to a second, and now.
pub uptime-total :
    (now start : ℕ)
    → start / 1000000 ≤ now
    → (c : Chrono) × (uptime now start ≡ some c)
      × InRange c
      × (total c ≡ (now - start / 1000000) * 1000)
unfolding uptime total
uptime-total now start after =
    let e = seconds_total (now - start / 1000000) in
    let started : leb (start / 1000000) now ≡ true = ground arith in
    rw (uptime, started)
      (
        _,
        refl,
        record {
          heures = omega arith;
          minutes = omega arith;
          secondes = omega arith;
          ms = omega arith;
        },
        omega arith,
      )
