-- ===== src/Clone/Descriptors.antt =====
-- The standard descriptors with which the container's init starts.
use vzgot.Base.{
  ℕ, ◌<◌, ◌≡◌, inl, inr, refl, Bool, true, false, Option, none, some, ◌∷◌, if◌then◌else◌, ltb, ◌==◌,
  arith, Bool-cases,
}
use vzgot.Clone.{
  Op, open_console, open_null, dup2, Trace, World, Process, File, null, console, put, Files,
  log_call, dup_to, dup_std, close_fd, opened, to_null, to_console,
}

-- all three stand for `f`
abbrev pub StdAre : Option File → Files → Type 0
StdAre f files = (files 0 ≡ f) × (files 1 ≡ f) × (files 2 ≡ f)

-- what the standard descriptors are behind the opening of the console and of /dev/null
unfoldable pub std_file : Bool → Bool → ℕ → (ℕ → Option File) → ℕ → Option File
std_file true opens_null null_fd files n = some console
std_file false true null_fd files n = if n == null_fd then none else some null
std_file false false null_fd files n = files n

module _ (w : World) where
  dup_to_lem :
      (fd target : ℕ) (s : Process)
      → w.answer s.trace (dup2 fd target) ≡ true
      → (dup_to w fd target s).files ≡ put target (s.files fd) s.files
  unfolding dup_to
  dup_to_lem fd target s h = rw h

  module _ (dups : (t : Trace) (fd target : ℕ) → w.answer t (dup2 fd target) ≡ true) where
    dup_to-files :
        (fd target : ℕ) (s : Process) (n : ℕ)
        → (dup_to w fd target s).files n ≡ (if n == target then s.files fd else s.files n)
    dup_to-files fd target s n = rw (dup_to_lem fd target s (dups s.trace fd target)) refl

    dup_std-files :
        (fd : ℕ) (s : Process) (n : ℕ)
        → (dup_std w fd s).files n ≡ (if ltb n 3 then s.files fd else s.files n)
    unfolding dup_std
    dup_std-files fd s n =
        let t = dup_to w fd 0 s in
        let u = dup_to w fd 1 t in
        ground (
          arith,
          dup_to-files fd 0 s n,
          dup_to-files fd 1 t n,
          dup_to-files fd 2 u n,
          dup_to-files fd 0 s fd,
          dup_to-files fd 1 t fd,
        )

    opened-files :
        (op : Op) (f : File) (s : Process) (n : ℕ)
        → (dup_std w (w.new_fd s.trace) (opened w op f s)).files n
          ≡ (if ltb n 3 then some f else if n == w.new_fd s.trace then some f else s.files n)
    unfolding opened
    opened-files op f s n = ground (arith, dup_std-files (w.new_fd s.trace) (opened w op f s) n)

    to_null-std :
        (s : Process) (n : ℕ)
        → n < 3
        → (to_null w s).files n
          ≡ std_file false (w.answer s.trace open_null) (w.new_fd s.trace) s.files n
    unfolding to_null close_fd std_file
    to_null-std s n h = elim (Bool-cases (w.answer s.trace open_null)) [
      | inr shut ↦ rw shut refl
      | inl fine ↦ rw fine (ground (arith, opened-files open_null null s n))
    ]

    -- Init's standard input, output and error are the console if it can be opened; otherwise they
    -- are /dev/null if that can be opened, but the one that the opening itself has used, if it was
    -- closed before, is closed again; otherwise they are as they were. What `dup2` does has to
    -- succeed.
    pub to_console-std :
        (s : Process) (n : ℕ)
        → n < 3
        → (to_console w s).files n
          ≡ std_file
              (w.answer s.trace open_console)
              (w.answer ((open_console, false) ∷ s.trace) open_null)
              (w.new_fd ((open_console, false) ∷ s.trace))
              s.files
              n
    unfolding to_console close_fd std_file
    to_console-std s n h = elim (Bool-cases (w.answer s.trace open_console)) [
      | inr shut ↦ rw shut (to_null-std (log_call open_console false s) n h)
      | inl fine ↦ rw fine (ground (arith, opened-files open_console console s n))
    ]
