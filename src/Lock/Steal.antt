-- ===== src/Lock/Steal.antt =====
-- When lck_locking writes the lock file: never over a lock that may be held.
use vzgot.Base.{
  ℕ, zero, suc, ◌<◌, ◌≡◌, refl, Bool, true, false, ◌&&◌, Option, none, some, [], ◌∷◌, arith, ◌==◌,
  Bool-cases, inl, inr,
}
use vzgot.Lock.{
  Made, made, exists, refused, Kind, missing, regular, other, Line, no_line, number, no_number,
  Event, mkdir, unlink, stat, open_lock, first_line, checked, fileno, fstat, lstat, close_lock,
  sleep, creat, Trace, World, Result, rm_compare, rm_lstat, rm_fstat, rm_lock, judge, write_lock,
  create_lock, try_remove, wait_lock, check_lock, name_lock, locking,
}
use vzgot.Process.{check_process}

-- the lock file was found empty, or with the number of a process that is no longer there
abbrev pub Stale : Trace → Type 0
Stale (first_line no_line ∷ t) = Unit
Stale (checked pid false ∷ first_line (number n) ∷ t) = pid ≡ n
Stale _ = ⊥

-- a stale lock file was removed, and it was the file that had been opened
pub data Removed : Trace → Type 0 where
  removed :
      {t : Trace} (dev ino dev' ino' : ℕ)
      → dev ≡ dev'
      → ino ≡ ino'
      → Stale t
      → Removed
          (unlink true ∷ lstat (some (dev', ino')) ∷ fstat (some (dev, ino)) ∷ fileno true ∷ t)

-- the lock file was not there, or was stale and is removed
pub data IsFree : Trace → Type 0 where
  not_there : {t : Trace} → IsFree (stat missing ∷ t)
  gone : {t : Trace} → IsFree (open_lock false ∷ t)
  stale : {t : Trace} → Removed t → IsFree (sleep ∷ close_lock ∷ t)

abbrev pub Safe : Event → Trace → Type 0
Safe (creat b) t = IsFree t
Safe _ t = Unit

-- the lock file is only ever written where it was free
abbrev pub Guarded : Trace → Type 0
Guarded [] = Unit
Guarded (e ∷ t) = Safe e t × Guarded t

module _ (w : World) where
  -- removal, and what it proves if it succeeds
  record Removal (r : Result) : Type 0 where
    done : r.0 ≡ true → Removed r.1
    guarded : Guarded r.1

  failed : {t : Trace} → Guarded t → Removal (false, t)
  failed g = record { done = λ h. cc; guarded = g }

  rm_compare-Removal :
      (t : Trace) (a b : ℕ × ℕ)
      → Stale t
      → Guarded t
      → Removal (rm_compare w a b (lstat (some b) ∷ fstat (some a) ∷ fileno true ∷ t))
  unfolding rm_compare
  rm_compare-Removal t (dev, ino) (dev', ino') s g =
      elim (Bool-cases (ino == ino' && dev == dev')) [
        | inr differ ↦ rw differ (failed (assumption))
        | inl same ↦
            let u = lstat (some (dev', ino')) ∷ fstat (some (dev, ino)) ∷ fileno true ∷ t in
            rw same (record {
              done = λ h. rw h (removed dev ino dev' ino' (ground arith) (ground arith) s);
              guarded = assumption;
            })
      ]

  rm_lstat-Removal :
      (t : Trace) (a : ℕ × ℕ)
      → Stale t
      → Guarded t
      → Removal (rm_lstat w a (fstat (some a) ∷ fileno true ∷ t))
  unfolding rm_lstat
  rm_lstat-Removal t a s g = go (w.lstat_says (fstat (some a) ∷ fileno true ∷ t))
    where
      go :
          (r : Option (ℕ × ℕ))
          → (let u = lstat r ∷ fstat (some a) ∷ fileno true ∷ t in
              Removal (elim r as (λ _. Result) [ none ↦ (false, u) | some b ↦ rm_compare w a b u ]))
      go none = failed (assumption)
      go (some b) = rm_compare-Removal t a b s g

  rm_fstat-Removal : (t : Trace) → Stale t → Guarded t → Removal (rm_fstat w (fileno true ∷ t))
  unfolding rm_fstat
  rm_fstat-Removal t s g = go (w.fstat_says (fileno true ∷ t))
    where
      go :
          (r : Option (ℕ × ℕ))
          → (let u = fstat r ∷ fileno true ∷ t in
              Removal (elim r as (λ _. Result) [ none ↦ (false, u) | some a ↦ rm_lstat w a u ]))
      go none = failed (assumption)
      go (some a) = rm_lstat-Removal t a s g

  rm_lock-Removal : (t : Trace) → Stale t → Guarded t → Removal (rm_lock w t)
  unfolding rm_lock
  rm_lock-Removal t s g = elim (Bool-cases (w.has_fileno t)) [
    | inr no_fd ↦ rw no_fd (failed (assumption))
    | inl fd ↦ rw fd (rm_fstat-Removal t s g)
  ]

  judge-Removal :
      (line : Line) (t : Trace) → Guarded t → Removal (judge w line (first_line line ∷ t))
  unfolding judge
  judge-Removal no_line t g = rm_lock-Removal _ tt (assumption)
  judge-Removal no_number t g = failed (assumption)
  judge-Removal (number pid) t g =
      let u = first_line (number pid) ∷ t in
      elim (Bool-cases (check_process (w.signals u) pid)) [
        | inl active ↦ rw active (failed (assumption))
        | inr inactive ↦ rw inactive (rm_lock-Removal _ refl (assumption))
      ]

  write_lock-Guarded : (t : Trace) → Guarded t → Guarded (write_lock w t).1
  unfolding write_lock
  write_lock-Guarded t g = elim (Bool-cases (w.flocks t)) [
    | inl got ↦ rw got (assumption)
    | inr lost ↦ rw lost (assumption)
  ]

  create_lock-Guarded : (t : Trace) → IsFree t → Guarded t → Guarded (create_lock w t).1
  unfolding create_lock
  create_lock-Guarded t f g = elim (Bool-cases (w.creates t)) [
    | inl got ↦ rw got (write_lock-Guarded _ (assumption))
    | inr lost ↦ rw lost (assumption)
  ]

  wait_lock-Guarded :
      (tentative : ℕ) (t : Trace) → 0 < tentative → Guarded t → Guarded (wait_lock w tentative t).1
  unfolding wait_lock try_remove
  wait_lock-Guarded zero t h g = absurd (omega arith)
  wait_lock-Guarded (suc n) t h g = elim (Bool-cases (w.opens t)) [
    | inr gone_ ↦ rw gone_ (create_lock-Guarded _ gone (assumption))
    | inl opened ↦ rw opened (
        let u = open_lock true ∷ t in
        let line = w.reads u in
        let r = judge-Removal line u (assumption) in
        elim (Bool-cases (judge w line (first_line line ∷ u)).0) [
          | inl hit ↦ rw hit (create_lock-Guarded _ (stale (r.done hit)) (assumption r.guarded))
          | inr miss ↦ rw miss (elim (Bool-cases (n == 0)) [
            | inl last ↦ rw last (assumption r.guarded)
            | inr more ↦ rw more (
                wait_lock-Guarded n (sleep ∷ close_lock ∷ (judge w line (first_line line ∷ u)).1)
                  (ground arith) (assumption r.guarded))
          ])
        ])
  ]

  check_lock-Guarded :
      (tentative : ℕ) (t : Trace) → 0 < tentative → Guarded t → Guarded (check_lock w tentative t).1
  unfolding check_lock
  check_lock-Guarded tentative t h g = go (w.stat_says t)
    where
      go :
          (k : Kind)
          → Guarded
              (elim k as (λ _. Result) [
                | missing ↦ create_lock w (stat k ∷ t)
                | other ↦ (false, stat k ∷ t)
                | regular ↦ wait_lock w tentative (stat k ∷ t)
              ]).1
      go missing = create_lock-Guarded _ not_there (assumption)
      go other = assumption
      go regular = wait_lock-Guarded tentative _ h (assumption)

  name_lock-Guarded :
      (lock : Bool) (tentative : ℕ) (t : Trace)
      → 0 < tentative
      → Guarded t
      → Guarded (name_lock w lock tentative t).1
  unfolding name_lock
  name_lock-Guarded true tentative t h g = check_lock-Guarded tentative t h g
  name_lock-Guarded false tentative t h g = assumption

  -- Whatever the system answers, lck_locking with at least one try to make, to lock or to unlock,
  -- behind calls of which this holds, creates the lock file only where stat had just found none,
  -- or opening it had just failed, or it had just unlinked the file. It unlinks it so only when
  -- the opened file was empty or named a process that was found gone, and fstat of the opened
  -- file and lstat of the name gave the same device and inode. `Guarded` states this of every
  -- call of the trace.
  pub locking-Guarded :
      (lock : Bool) (tentative : ℕ) (t : Trace)
      → 0 < tentative
      → Guarded t
      → Guarded (locking w lock tentative t).1
  unfolding locking
  locking-Guarded lock tentative t h g = elim (Bool-cases w.lock_dir) [
    | inr no_dir ↦ rw no_dir g
    | inl dir ↦ rw dir (go (w.mkdir_says t))
  ]
    where
      go :
          (m : Made)
          → Guarded
              (elim m as (λ _. Result) [
                | refused ↦ (false, mkdir m ∷ t)
                | _ ↦ name_lock w lock tentative (mkdir m ∷ t)
              ]).1
      go made = name_lock-Guarded lock tentative _ h (assumption)
      go exists = name_lock-Guarded lock tentative _ h (assumption)
      go refused = assumption
