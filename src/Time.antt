-- ===== src/Time.antt =====
-- Durations of lib/utlapl.c: apl_chrono_ms and apl_uptime, up to the text that snprintf makes of
-- the fields. The widths of `unsigned long` and `u_vlong` are not reached.
pub mod Fields
mod Examples
use vzgot.Base.{ℕ, ◌-◌, ◌/◌, ◌%◌, true, false, Option, none, some, leb}

-- the fields of "% 3ld days %02ld:%02ld:%02ld.%03lld"
pub record Chrono : Type 0 where
  pub jours : ℕ
  pub heures : ℕ
  pub minutes : ℕ
  pub secondes : ℕ
  pub ms : ℕ

-- apl_chrono_ms
unfoldable pub chrono_ms : ℕ → Chrono
chrono_ms ms =
    let sec = ms / 1000 in
    let reste = sec % 86400 in
    let reste2 = reste % 3600 in
    record {
      jours = sec / 86400;
      heures = reste / 3600;
      minutes = reste2 / 60;
      secondes = reste2 % 60;
      ms = ms % 1000;
    }

-- apl_uptime at the second `now`, for a start in microseconds; `none` is the empty text
unfoldable pub uptime : ℕ → ℕ → Option Chrono
uptime now start =
    let start = start / 1000000 in
    let sec = now - start in
    let reste = sec % 86400 in
    let reste2 = reste % 3600 in
    elim (leb start now) [
      | false ↦ none
      | true ↦ some (record {
        jours = sec / 86400;
        heures = reste / 3600;
        minutes = reste2 / 60;
        secondes = reste2 % 60;
        ms = 0;
      })
    ]
