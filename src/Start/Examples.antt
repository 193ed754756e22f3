-- ===== src/Start/Examples.antt =====
-- A time that is kept, and the theorem on it.
use vzgot.Base.{◌≡◌, refl, true, some, none, []}
use vzgot.Text.{codes}
use vzgot.Start.{micros, Writing, set_start, write_start, get_start}
use vzgot.Start.Kept.{get-set_start}

abbrev whole : Writing
whole = record { opens = true; closes = true; partial = [] }

get-set_start_example :
    get_start
      (some (codes "/vz/web"))
      (set_start (some (codes "/vz/web")) whole (micros 17 5) none).1
    ≡ 17000005
get-set_start_example =
    get-set_start (some (codes "/vz/web")) whole 17 5 none (unfold set_start write_start in refl)
