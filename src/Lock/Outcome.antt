-- ===== src/Lock/Outcome.antt =====
-- What lck_locking's answers mean.
use vzgot.Base.{
  ℕ, zero, suc, ◌≡◌, Bool, true, false, not, [], ◌∷◌, ◌==◌, if◌then◌else◌, Bool-cases, inl, inr,
}
use vzgot.Lock.{
  Made, made, exists, refused, Kind, missing, regular, other, mkdir, stat, sleep, creat, flock,
  write_pid, Trace, World, Result, write_lock, create_lock, wait_lock, check_lock, name_lock,
  locking,
}

-- the last calls made the lock file, locked it and wrote the number to it
abbrev pub Written : Trace → Type 0
Written (write_pid c ∷ flock true ∷ creat true ∷ t) = Unit
Written _ = ⊥

abbrev IsHonest : Result → Type 0
IsHonest r = r.0 ≡ true → Written r.1

pub if-either : (P : Result → Type 0) (b : Bool) {x y : Result} → P x → P y → P (if b then x else y)
if-either P true px py = px
if-either P false px py = py

-- the number of seconds slept
unfoldable pub sleeps : Trace → ℕ
sleeps [] = 0
sleeps (sleep ∷ t) = suc (sleeps t)
sleeps (_ ∷ t) = sleeps t

module _ (w : World) where
  lost : (t : Trace) → IsHonest (false, t)
  lost t h = cc

  create_lock-IsHonest : (t : Trace) → IsHonest (create_lock w t)
  unfolding create_lock write_lock
  create_lock-IsHonest t = elim (Bool-cases (w.creates t)) [
    | inr not_ok ↦ rw not_ok (λ h. cc)
    | inl ok ↦ rw ok (elim (Bool-cases (w.flocks (creat true ∷ t))) [
      | inl got ↦ rw got (λ _. tt)
      | inr not_ok ↦ rw not_ok (λ h. cc)
    ])
  ]

  wait_lock-IsHonest : (tentative : ℕ) (t : Trace) → IsHonest (wait_lock w tentative t)
  unfolding wait_lock
  wait_lock-IsHonest zero t = create_lock-IsHonest t
  wait_lock-IsHonest (suc n) t = if-either IsHonest (not (w.opens t)) (create_lock-IsHonest _) (
      if-either IsHonest _ (create_lock-IsHonest _)
        (if-either IsHonest (n == 0) (lost _) (wait_lock-IsHonest n _)))

  check_lock-IsHonest : (tentative : ℕ) (t : Trace) → IsHonest (check_lock w tentative t)
  unfolding check_lock
  check_lock-IsHonest tentative t = go (w.stat_says t)
    where
      go :
          (k : Kind)
          → IsHonest (elim k as (λ _. Result) [
            | missing ↦ create_lock w (stat k ∷ t)
            | other ↦ (false, stat k ∷ t)
            | regular ↦ wait_lock w tentative (stat k ∷ t)
          ])
      go missing = create_lock-IsHonest (stat missing ∷ t)
      go other = lost (stat other ∷ t)
      go regular = wait_lock-IsHonest tentative (stat regular ∷ t)

  -- Whatever the system answers, if lck_locking is asked to lock and says it did, then its last
  -- three calls made the lock file, locked it, and tried to write the process number to it.
  pub locking-IsHonest :
      (tentative : ℕ) (t : Trace)
      → (locking w true tentative t).0 ≡ true
      → Written (locking w true tentative t).1
  unfolding locking name_lock
  locking-IsHonest tentative t = if-either IsHonest (not w.lock_dir) (lost t) (go (w.mkdir_says t))
    where
      go :
          (m : Made)
          → IsHonest (elim m as (λ _. Result) [
            | refused ↦ (false, mkdir m ∷ t)
            | _ ↦ check_lock w tentative (mkdir m ∷ t)
          ])
      go made = check_lock-IsHonest tentative (mkdir made ∷ t)
      go exists = check_lock-IsHonest tentative (mkdir exists ∷ t)
      go refused = lost (mkdir refused ∷ t)
