-- ===== src/Process/Examples.antt =====
-- Runs of prc_childcheck and prc_childkill.
use vzgot.Base.{◌≡◌, refl, false, Option, some, [], ◌∷◌, ◌==◌, arith}
use vzgot.Process.{Queue, child_check, reap, World, send_term}
use vzgot.Process.Check.{Holds, cells, live, child_check-live}

abbrev queue : Queue
queue = record { nbr = 3; pqueue = 12 ∷ 30 ∷ 41 ∷ 99 ∷ [] }

-- process 30 is there, and ignores SIGTERM
abbrev stubborn : World
stubborn = record { terms = λ _ pid. pid == 30; checks = λ _ pid. pid == 30 }

child_check-live_example :
    (result : Option Queue) × (child_check 7 (λ pid. pid == 30) (some queue) ≡ some result)
    × Holds result (live (λ pid. pid == 30) (12 ∷ 30 ∷ 41 ∷ []))
child_check-live_example =
    child_check-live 7 (λ pid. pid == 30) (some queue) (12 ∷ 30 ∷ 41 ∷ [])
      (cells 99 refl (omega arith) refl)

nobody_takes_term : (send_term stubborn (12 ∷ 13 ∷ []) false (reap ∷ [])).0 ≡ false
unfolding send_term
nobody_takes_term = refl
