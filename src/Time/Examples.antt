-- ===== src/Time/Examples.antt =====
-- Durations.
use vzgot.Base.{◌≡◌, refl}
use vzgot.Time.{chrono_ms}

chrono_run :
    chrono_ms 93784005 ≡ record { jours = 1; heures = 2; minutes = 3; secondes = 4; ms = 5 }
unfolding chrono_ms
chrono_run = refl
