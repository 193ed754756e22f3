-- ===== src/Boot/Examples.antt =====
-- Runs of the supervisor in small worlds, and the theorems in these worlds.
use vzgot.Base.{ℕ, ◌≡◌, refl, Bool, true, false, Option, none, some, [], ◌∷◌, map}
use vzgot.Boot.{
  Op, load_config, reset_flags, script_boot, unset_sup_devices, Trace, World, Supervisor, initial,
  setup, boot,
}
use vzgot.Boot.Clearance.{Guarded, boot-Guarded}
use vzgot.Boot.Ending.{EndsWell, boot-EndsWell}
use vzgot.Boot.Failure.{boot_livelock}

-- every call but those that `fails` names succeeds
abbrev world : (Trace → Op → Bool) → ℕ → World
world fails status = record {
  answer = λ t op. elim (fails t op) [ true ↦ false | false ↦ true ];
  exit_status = λ _. status;
  read_end = λ _. 5;
  write_end = λ _. 6;
  master_fd = λ _. 7;
  slave_fd = λ _ slave. some 8;
}

abbrev no_failure : Trace → Op → Bool
no_failure t op = false

abbrev config_fails : Trace → Op → Bool
config_fails t load_config = true
config_fails t _ = false

abbrev script_always_fails : Trace → Op → Bool
script_always_fails t script_boot = true
script_always_fails t _ = false

-- the boot script fails in a round that follows another one
abbrev after_round : Trace → Bool
after_round ((reset_flags, _) ∷ (unset_sup_devices, _) ∷ t) = true
after_round _ = false

abbrev script_fails_later : Trace → Op → Bool
script_fails_later t script_boot = after_round t
script_fails_later t _ = false

powered_off : World
powered_off = world no_failure 2

run_off : map (λ s. s.status) (elim (boot powered_off 1) [ none ↦ [] | some s ↦ s ∷ [] ]) ≡ 0 ∷ []
unfolding boot powered_off
run_off = refl

abbrev last_state : Option Supervisor → Supervisor
last_state none = initial
last_state (some s) = s

boot-Guarded_example : Guarded (last_state (boot (world no_failure 2) 1)).trace
boot-Guarded_example =
    boot-Guarded (world no_failure 2) 1 (last_state (boot (world no_failure 2) 1))
      (unfold boot in refl)

boot-EndsWell_example :
    EndsWell
      (last_state (boot (world no_failure 2) 1)).trace
      (last_state (boot (world no_failure 2) 1)).status
boot-EndsWell_example =
    boot-EndsWell (world no_failure 2) 1 (last_state (boot (world no_failure 2) 1))
      (unfold boot in refl)

boot_livelock_example : boot (world script_fails_later 1) 100 ≡ none
unfolding setup
boot_livelock_example =
    boot_livelock (world script_fails_later 1) (λ t. refl) (λ b t. refl) refl refl refl 100
