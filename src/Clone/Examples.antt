-- ===== src/Clone/Examples.antt =====
-- Runs of the container's first process in small worlds, and the theorems in these worlds.
use vzgot.Base.{◌≡◌, refl, Bool, true, false, not, some, ◌⊎◌, [], ◌∷◌, pos, negsuc}
use vzgot.Text.{codes, same}
use vzgot.Clone.{
  Op, read_clearance, pivot_root, open_console, close, World, Process, through, inherited,
  persona_of, linux32_3gb, start_clone,
}
use vzgot.Clone.Confine.{Outcome, start_clone-Outcome}

-- every call but those that `fails` names succeeds
abbrev world : (Op → Bool) → World
world fails = record { answer = λ t op. not (fails op); new_fd = λ t. 0 }

abbrev pivot_fails : Op → Bool
pivot_fails pivot_root = true
pivot_fails _ = false

abbrev console_fails : Op → Bool
console_fails open_console = true
console_fails _ = false

abbrev fresh : Process
fresh = record { status = pos 0; files = λ n. some inherited; trace = [] }

persona_test : persona_of (codes "i686") ≡ some linux32_3gb
unfolding persona_of same
persona_test = refl

start_clone-Outcome_example :
    (b1 b2 : Bool) × (((t : Process) × (start_clone (world pivot_fails) (codes "x86_64") 7 8 fresh
          ≡ through t)
        × (t.status ≡ negsuc 0)
        × (t.trace ≡ (read_clearance, false) ∷ (close 8, b1) ∷ (close 7, b2) ∷ []))
      ⊎ Outcome
          (codes "x86_64")
          ((read_clearance, true) ∷ (close 8, b1) ∷ (close 7, b2) ∷ [])
          (start_clone (world pivot_fails) (codes "x86_64") 7 8 fresh))
start_clone-Outcome_example = start_clone-Outcome (world pivot_fails) (codes "x86_64") 7 8 fresh
