-- ===== src/Lock/Examples.antt =====
-- Runs of lck_locking.
use vzgot.Base.{◌≡◌, refl, Bool, true, false, some, [], ◌∷◌, arith}
use vzgot.Lock.{
  exists, regular, number, mkdir, stat, Trace, World, locking, name_lock, check_lock, wait_lock,
  try_remove, create_lock, write_lock, judge, rm_lock, rm_fstat, rm_lstat, rm_compare, rm_unlink,
}
use vzgot.Process.{check_process}
use vzgot.Lock.Outcome.{Written, locking-IsHonest}
use vzgot.Lock.Steal.{Guarded, locking-Guarded}
use vzgot.Lock.Wait.{held_rounds, locking_held}

-- the file names process 77, which `alive` says is there or not
abbrev world : Bool → World
world alive = record {
  lock_dir = true;
  mkdir_says = λ _. exists;
  unlinks = λ _. true;
  stat_says = λ _. regular;
  opens = λ _. true;
  reads = λ _. number 77;
  signals = λ _ _. alive;
  has_fileno = λ _. true;
  fstat_says = λ _. some (8, 1203);
  lstat_says = λ _. some (8, 1203);
  creates = λ _. true;
  flocks = λ _. true;
  writes = λ _. true;
}

locking_steals : (locking (world false) true 3 []).0 ≡ true
unfolding locking name_lock check_lock wait_lock try_remove judge check_process rm_lock rm_fstat
    rm_lstat rm_compare rm_unlink create_lock write_lock
locking_steals = refl

locking-IsHonest_example : Written (locking (world false) true 3 []).1
locking-IsHonest_example = locking-IsHonest (world false) 3 [] locking_steals

locking-Guarded_example : Guarded (locking (world false) true 3 []).1
locking-Guarded_example = locking-Guarded (world false) true 3 [] (omega arith) tt

check_process_alive : (t : Trace) → check_process ((world true).signals t) 77 ≡ true
unfolding check_process
check_process_alive t = refl

locking_held_example :
    locking (world true) true 3 [] ≡ (false, held_rounds 77 3 (stat regular ∷ mkdir exists ∷ []))
locking_held_example =
    locking_held (world true) 77 (λ t. refl) (λ t. refl) check_process_alive 2 [] refl refl refl
