-- ===== src/Status/Numbers.antt =====
-- The numbers of type double that the status of a container uses, lib/utlsys.c.
use vzgot.Base.{ℕ, Bool}

-- the type double, with what the code does with it
pub record Doubles : Type 1 where
  pub Double : Type 0
  pub nought : Double
  pub one : Double
  pub lt : Double → Double → Bool
  pub times : Double → Double → Double
  pub over : Double → Double → Double
  pub of_u64 : ℕ → Double
  -- MINPACE
  pub min_pace : Double
  -- of a `vlong`, given by its 64 bits
  pub of_i64 : ℕ → Double
