-- ===== src/Lock.antt =====
-- The lock file of a container: rm_lock and lck_locking of lib/unilck.c. The phases of the code
-- are functions that call the next one; `phase=999` is the end without success. What the system
-- answers is the world's choice, and may depend on all that was called before; the trace keeps
-- the calls with their answers.
pub mod Steal
pub mod Wait
pub mod Outcome
mod Examples
use vzgot.Base.{
  ℕ, zero, suc, ◌+◌, ◌-◌, Bool, true, false, not, ◌&&◌, Option, none, some, List, [], ◌∷◌, ◌==◌,
  if◌then◌else◌,
}
use vzgot.Process.{check_process}

pub data Made : Type 0 where
  made exists refused : Made

pub data Kind : Type 0 where
  missing regular other : Kind

-- the first line of the lock file: none, a process number, or no number
pub data Line : Type 0 where
  no_line : Line
  number : ℕ → Line
  no_number : Line

-- the calls of lck_locking and rm_lock with their answers
pub data Event : Type 0 where
  mkdir : Made → Event
  unlink : Bool → Event
  stat : Kind → Event
  open_lock : Bool → Event
  first_line : Line → Event
  checked : ℕ → Bool → Event
  fileno : Bool → Event
  fstat : Option (ℕ × ℕ) → Event
  lstat : Option (ℕ × ℕ) → Event
  close_lock : Event
  sleep : Event
  creat : Bool → Event
  flock : Bool → Event
  write_pid : Bool → Event

abbrev pub Trace : Type 0
Trace = List Event

-- device and inode are what fstat and lstat tell of a file
pub record World : Type 0 where
  pub lock_dir : Bool
  pub mkdir_says : Trace → Made
  pub unlinks : Trace → Bool
  pub stat_says : Trace → Kind
  pub opens : Trace → Bool
  pub reads : Trace → Line
  -- whether `kill(pid,0)` succeeds
  pub signals : Trace → ℕ → Bool
  pub has_fileno : Trace → Bool
  pub fstat_says : Trace → Option (ℕ × ℕ)
  pub lstat_says : Trace → Option (ℕ × ℕ)
  pub creates : Trace → Bool
  pub flocks : Trace → Bool
  pub writes : Trace → Bool

abbrev pub Result : Type 0
Result = Bool × Trace

module _ (w : World) where
  -- rm_lock, phase 4
  unfoldable pub rm_unlink : Trace → Result
  rm_unlink t = let b = w.unlinks t in (b, unlink b ∷ t)

  -- rm_lock, phase 3
  unfoldable pub rm_compare : ℕ × ℕ → ℕ × ℕ → Trace → Result
  unfolding rm_unlink
  rm_compare (dev, ino) (dev', ino') t =
      if ino == ino' && dev == dev' then rm_unlink t else (false, t)

  -- rm_lock, phase 2
  unfoldable pub rm_lstat : ℕ × ℕ → Trace → Result
  unfolding rm_compare
  rm_lstat st_fd t =
      let r = w.lstat_says t in
      let u = lstat r ∷ t in
      elim r [ none ↦ (false, u) | some st_path ↦ rm_compare st_fd st_path u ]

  -- rm_lock, phase 1
  unfoldable pub rm_fstat : Trace → Result
  unfolding rm_lstat
  rm_fstat t =
      let r = w.fstat_says t in
      let u = fstat r ∷ t in elim r [ none ↦ (false, u) | some st_fd ↦ rm_lstat st_fd u ]

  -- rm_lock
  unfoldable pub rm_lock : Trace → Result
  unfolding rm_fstat
  rm_lock t = let b = w.has_fileno t in let u = fileno b ∷ t in if b then rm_fstat u else (false, u)

  -- what one round of phase 5 does with the first line; the file was opened
  unfoldable pub judge : Line → Trace → Result
  unfolding rm_lock
  judge no_line t = rm_lock t
  judge no_number t = (false, t)
  judge (number pid) t =
      let b = check_process (w.signals t) pid in
      let u = checked pid b ∷ t in if b then (false, u) else rm_lock u

  -- phases 7 and 8; a write that fails is only reported
  unfoldable pub write_lock : Trace → Result
  write_lock t =
      let b = w.flocks t in
      let u = flock b ∷ t in
      if b then (let c = w.writes u in (true, write_pid c ∷ u)) else (false, u)

  -- phase 6
  unfoldable pub create_lock : Trace → Result
  unfolding write_lock
  create_lock t =
      let b = w.creates t in let u = creat b ∷ t in if b then write_lock u else (false, u)

  -- one round of phase 5 behind a successful open: whether the lock was removed
  unfoldable pub try_remove : Trace → Result
  unfolding judge
  try_remove t =
      let line = w.reads t in
      let r = judge line (first_line line ∷ t) in (r.0, sleep ∷ close_lock ∷ r.1)

  -- phase 5: the loop, and what is behind it
  unfoldable pub wait_lock : ℕ → Trace → Result
  wait_lock zero t = create_lock t
  wait_lock (suc tentative) t =
      let b = w.opens t in
      let u = open_lock b ∷ t in
      let r = try_remove u in
      let rest = wait_lock tentative r.1 in
      let last : Result = (false, r.1) in
      if not b
      then create_lock u
      else if r.0
      then create_lock r.1
      else if tentative == 0
      then last
      else rest

  -- phases 3 and 4
  unfoldable pub check_lock : ℕ → Trace → Result
  check_lock tentative t =
      let k = w.stat_says t in
      let u = stat k ∷ t in
      elim k [ missing ↦ create_lock u | other ↦ (false, u) | regular ↦ wait_lock tentative u ]

  -- phase 2; `lock` is false for LCK_UNLOCK
  unfoldable pub name_lock : Bool → ℕ → Trace → Result
  unfolding check_lock
  name_lock lock tentative t =
      if lock then check_lock tentative t else (true, unlink (w.unlinks t) ∷ t)

  -- lck_locking, from phases 0 and 1 on
  unfoldable pub locking : Bool → ℕ → Trace → Result
  unfolding name_lock
  locking lock tentative t =
      if not w.lock_dir
      then (false, t)
      else let m = w.mkdir_says t in
        let u = mkdir m ∷ t in elim m [ refused ↦ (false, u) | _ ↦ name_lock lock tentative u ]
