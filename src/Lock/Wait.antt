-- ===== src/Lock/Wait.antt =====
-- How long lck_locking waits, and that it leaves a living holder alone.
use vzgot.Base.{
  ℕ, zero, suc, ◌+◌, ◌≤◌, ◌≡◌, refl, Bool, true, false, not, Option, none, some, ◌∷◌, arith, ◌==◌,
  Bool-cases, inl, inr, sym, subst,
}
use vzgot.Lock.{
  Made, made, exists, refused, Kind, missing, regular, other, Line, no_line, number, no_number,
  mkdir, stat, open_lock, first_line, checked, fileno, fstat, lstat, close_lock, sleep, Trace,
  World, Result, rm_lock, rm_unlink, rm_compare, rm_lstat, rm_fstat, judge, write_lock, create_lock,
  try_remove, wait_lock, check_lock, name_lock, locking,
}
use vzgot.Process.{check_process}
use vzgot.Lock.Outcome.{if-either, sleeps}

-- the calls of `n` rounds of phase 5 at a lock that a living process `pid` holds
unfoldable pub held_rounds : ℕ → ℕ → Trace → Trace
held_rounds pid zero t = t
held_rounds pid (suc n) t =
    held_rounds pid n
      (sleep ∷ close_lock ∷ checked pid true ∷ first_line (number pid) ∷ open_lock true ∷ t)

module _ (w : World) where
  -- at most `n` more seconds than `t`
  IsWithin : ℕ → Trace → Result → Type 0
  IsWithin n t r = sleeps r.1 ≤ n + sleeps t

  rm_unlink-sleeps : (t : Trace) → sleeps (rm_unlink w t).1 ≡ sleeps t
  unfolding rm_unlink sleeps
  rm_unlink-sleeps t = refl

  rm_compare-sleeps : (a b : ℕ × ℕ) (t : Trace) → sleeps (rm_compare w a b t).1 ≡ sleeps t
  unfolding rm_compare
  rm_compare-sleeps (dev, ino) (dev', ino') t =
      if-either (λ r. sleeps r.1 ≡ sleeps t) _ (rm_unlink-sleeps t) refl

  rm_lock-sleeps : (t : Trace) → sleeps (rm_lock w t).1 ≡ sleeps t
  unfolding rm_lock rm_fstat rm_lstat sleeps
  rm_lock-sleeps t =
      if-either (λ r. sleeps r.1 ≡ sleeps t) (w.has_fileno t) (by_fstat (w.fstat_says _)) refl
    where
      by_lstat :
          (a : ℕ × ℕ) (r : Option (ℕ × ℕ)) (u : Trace)
          → sleeps
              (elim r as (λ _. Result) [
                | none ↦ (false, lstat r ∷ u)
                | some b ↦ rm_compare w a b (lstat r ∷ u)
              ]).1
            ≡ sleeps u
      by_lstat a none u = refl
      by_lstat a (some b) u = rm_compare-sleeps a b _

      by_fstat :
          (r : Option (ℕ × ℕ))
          → sleeps
              (elim r as (λ _. Result) [
                | none ↦ (false, fstat r ∷ fileno (w.has_fileno t) ∷ t)
                | some a ↦ rm_lstat w a (fstat r ∷ fileno (w.has_fileno t) ∷ t)
              ]).1
            ≡ sleeps t
      by_fstat none = refl
      by_fstat (some a) = by_lstat a (w.lstat_says _) _

  judge-sleeps : (line : Line) (t : Trace) → sleeps (judge w line t).1 ≡ sleeps t
  unfolding judge sleeps
  judge-sleeps no_line t = rm_lock-sleeps t
  judge-sleeps no_number t = refl
  judge-sleeps (number pid) t =
      let b = check_process (w.signals t) pid in
      if-either (λ r. sleeps r.1 ≡ sleeps t) b {x = (false, checked pid b ∷ t)}
        {y = rm_lock w (checked pid b ∷ t)} refl (rm_lock-sleeps (checked pid b ∷ t))

  create_lock-sleeps : (t : Trace) → sleeps (create_lock w t).1 ≡ sleeps t
  unfolding create_lock write_lock sleeps
  create_lock-sleeps t =
      let P = λ (r : Result). sleeps r.1 ≡ sleeps t in
      if-either P (w.creates t) (if-either P (w.flocks _) refl refl) refl

  wait_lock-sleeps : (n : ℕ) (t : Trace) → sleeps (wait_lock w n t).1 ≤ n + sleeps t
  unfolding wait_lock try_remove sleeps
  wait_lock-sleeps zero t = let e = create_lock-sleeps t in omega arith
  wait_lock-sleeps (suc n) t =
      let e0 = create_lock-sleeps (open_lock false ∷ t) in
      let u = open_lock true ∷ t in
      let line = w.reads u in
      let v = first_line line ∷ u in
      let x = sleep ∷ close_lock ∷ (judge w line v).1 in
      let e1 = judge-sleeps line v in
      let e2 = create_lock-sleeps x in
      let e3 = wait_lock-sleeps n x in
      elim (Bool-cases (w.opens t)) [
        | inr gone ↦ rw gone (omega arith)
        | inl opened ↦ rw opened (elim (Bool-cases (judge w line v).0) [
          | inl hit ↦ rw hit (omega arith)
          | inr miss ↦ rw miss (elim (Bool-cases (n == 0)) [
            | inl last ↦ rw last (omega arith)
            | inr more ↦ rw more (omega arith)
          ])
        ])
      ]

  check_lock-sleeps : (n : ℕ) (t : Trace) → sleeps (check_lock w n t).1 ≤ n + sleeps t
  unfolding check_lock sleeps
  check_lock-sleeps n t = go (w.stat_says t)
    where
      go :
          (k : Kind)
          → sleeps
              (elim k as (λ _. Result) [
                | missing ↦ create_lock w (stat k ∷ t)
                | other ↦ (false, stat k ∷ t)
                | regular ↦ wait_lock w n (stat k ∷ t)
              ]).1
            ≤ n + sleeps t
      go missing = let e = create_lock-sleeps (stat missing ∷ t) in omega arith
      go other = omega arith
      go regular = wait_lock-sleeps n (stat regular ∷ t)

  name_lock-sleeps :
      (lock : Bool) (n : ℕ) (t : Trace) → sleeps (name_lock w lock n t).1 ≤ n + sleeps t
  unfolding name_lock sleeps
  name_lock-sleeps true n t = check_lock-sleeps n t
  name_lock-sleeps false n t = omega arith

  -- Whatever the system answers, lck_locking sleeps at most `tentative` seconds.
  pub locking-sleeps :
      (lock : Bool) (tentative : ℕ) (t : Trace)
      → sleeps (locking w lock tentative t).1 ≤ tentative + sleeps t
  unfolding locking sleeps
  locking-sleeps lock n t =
      let P = λ (r : Result). sleeps r.1 ≤ n + sleeps t in
      let here : P (false, t) = omega arith in
      if-either P (not w.lock_dir) here (go (w.mkdir_says t))
    where
      go :
          (m : Made)
          → sleeps
              (elim m as (λ _. Result) [
                | refused ↦ (false, mkdir m ∷ t)
                | _ ↦ name_lock w lock n (mkdir m ∷ t)
              ]).1
            ≤ n + sleeps t
      go made = name_lock-sleeps lock n (mkdir made ∷ t)
      go exists = name_lock-sleeps lock n (mkdir exists ∷ t)
      go refused = omega arith

  -- a living process holds the lock throughout
  module _ (pid : ℕ) (opens : (t : Trace) → w.opens t ≡ true)
      (reads : (t : Trace) → w.reads t ≡ number pid)
      (lives : (t : Trace) → check_process (w.signals t) pid ≡ true) where
    try_remove_held :
        (t : Trace)
        → try_remove w t
          ≡ (false, sleep ∷ close_lock ∷ checked pid true ∷ first_line (number pid) ∷ t)
    unfolding try_remove judge
    try_remove_held t = rw (reads t, lives (first_line (number pid) ∷ t)) refl

    wait_lock_held :
        (n : ℕ) (t : Trace) → wait_lock w (suc n) t ≡ (false, held_rounds pid (suc n) t)
    unfolding wait_lock held_rounds
    wait_lock_held zero t = rw (opens t, try_remove_held (open_lock true ∷ t)) refl
    wait_lock_held (suc n) t =
        let more : (suc n == 0) ≡ false = ground arith in
        let u = open_lock true ∷ t in
        rw (opens t, try_remove_held u, more)
          (wait_lock_held n (sleep ∷ close_lock ∷ checked pid true ∷ first_line (number pid) ∷ u))

    check_lock_held :
        (n : ℕ) (t : Trace)
        → w.stat_says t ≡ regular
        → check_lock w (suc n) t ≡ (false, held_rounds pid (suc n) (stat regular ∷ t))
    unfolding check_lock
    check_lock_held n t plain =
        subst
          (λ (k : Kind).
            elim k as (λ _. Result) [
              | missing ↦ create_lock w (stat k ∷ t)
              | other ↦ (false, stat k ∷ t)
              | regular ↦ wait_lock w (suc n) (stat k ∷ t)
            ]
            ≡ (false, held_rounds pid (suc n) (stat regular ∷ t)))
          (sym plain) (wait_lock_held n (stat regular ∷ t))

    -- If the lock directory is known and there, and the lock file is regular, opens at every try,
    -- and names a process that is found alive at every look, then lck_locking with at least one
    -- try to make answers that it has no lock. It opened, read and closed the file and slept a
    -- second as often as it was told, and did nothing else to it.
    pub locking_held :
        (n : ℕ) (t : Trace)
        → w.lock_dir ≡ true
        → w.mkdir_says t ≡ exists
        → w.stat_says (mkdir exists ∷ t) ≡ regular
        → locking w true (suc n) t
          ≡ (false, held_rounds pid (suc n) (stat regular ∷ mkdir exists ∷ t))
    unfolding locking name_lock
    locking_held n t dir known plain = rw dir (
        subst
          (λ (m : Made).
            elim m as (λ _. Result) [
              | refused ↦ (false, mkdir m ∷ t)
              | _ ↦ check_lock w (suc n) (mkdir m ∷ t)
            ]
            ≡ (false, held_rounds pid (suc n) (stat regular ∷ mkdir exists ∷ t)))
          (sym known) (check_lock_held n (mkdir exists ∷ t) plain))
