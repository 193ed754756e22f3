-- ===== src/Vector/Examples.antt =====
-- Runs of the pointer arrays, and the theorems at concrete blocks.
use vzgot.Base.{◌≡◌, refl, arith, true, some, [], ◌∷◌}
use vzgot.Vector.{Block, add, remove}
use vzgot.Vector.Array.{Holds}

-- two payloads, and a cell behind the NULL
abbrev block : Block
block = 7 ∷ 8 ∷ 0 ∷ 5 ∷ []

block-Holds : Holds (7 ∷ 8 ∷ []) block
block-Holds = record { slack = 5 ∷ []; layout = refl; payloads = omega arith }

other-Holds : Holds (9 ∷ []) (9 ∷ 0 ∷ [])
other-Holds = record { slack = []; layout = refl; payloads = omega arith }

add_run : add 3 (some block) 9 ≡ some (7 ∷ 8 ∷ 9 ∷ 0 ∷ [])
unfolding add
add_run = refl

remove_run : remove 7 (some block) ≡ some (true, some (8 ∷ 0 ∷ 0 ∷ 5 ∷ []))
unfolding remove
remove_run = refl
