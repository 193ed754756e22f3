-- ===== src/Console.antt =====
-- The container's console, app/vzgot.c: track_console, and pty_tracker, which its child runs. What
-- the system calls answer is a parameter; the calls with their answers are the trace.
pub mod Steps
pub mod Log
mod Examples
use vzgot.Base.{
  ℕ, zero, suc, ◌+◌, Bool, true, false, Option, none, some, List, [], ◌∷◌, ◌++◌, take,
  if◌then◌else◌,
}
use vzgot.Text.{Bytes}

-- ---- track_console ----

pub data Op : Type 0 where
  open_log close_log mount_slave open_slave fork : Op

-- newest call first
abbrev pub Trace : Type 0
Trace = List (Op × Bool)

pub record World : Type 0 where
  pub answer : Trace → Op → Bool
  -- the descriptor that `open` of the slave gives
  pub slave_fd : Trace → ℕ

-- `none` is the descriptor -1
pub record State : Type 0 where
  pub slave : Option ℕ
  pub trace : Trace

module _ (w : World) where
  -- phase 3, of the parent
  unfoldable pub fork_logger : State → Bool × State
  fork_logger s = let b = w.answer s.trace fork in (b, record s { trace = (fork, b) ∷ s.trace })

  -- phase 2; the descriptor is set also when it is -1
  unfoldable pub open_slave_fd : State → Bool × State
  unfolding fork_logger
  open_slave_fd s =
      let b = w.answer s.trace open_slave in
      let t = (open_slave, b) ∷ s.trace in
      if b
      then fork_logger (record { slave = some (w.slave_fd s.trace); trace = t })
      else (false, record { slave = none; trace = t })

  -- phase 1
  unfoldable pub link_slave : State → Bool × State
  unfolding open_slave_fd
  link_slave s =
      let t = (close_log, w.answer s.trace close_log) ∷ s.trace in
      let b = w.answer t mount_slave in
      let u = record s { trace = (mount_slave, b) ∷ t } in if b then open_slave_fd u else (false, u)

  -- what it returns, and the state
  unfoldable pub track_console : State → Bool × State
  unfolding link_slave
  track_console s =
      let b = w.answer s.trace open_log in
      let t = record s { trace = (open_log, b) ∷ s.trace } in if b then link_slave t else (false, t)

-- ---- pty_tracker ----

-- the bytes of a chunk that `write` has taken, and the rest of the loop
abbrev pub written : Option ℕ → Bytes → Bytes → Bytes
written none chunk later = []
written (some n) chunk later = take n chunk ++ later

-- The `while` loop of phase 1: `chunks` are what `read` gives until it gives nothing, and `writes`
-- what `write` answers to each, `none` for an error, which ends the loop. The result is what is
-- written to the file.
unfoldable pub copy_chunks : (ℕ → Option ℕ) → ℕ → List Bytes → Bytes
copy_chunks writes i [] = []
copy_chunks writes i (c ∷ chunks) = written (writes i) c (copy_chunks writes (suc i) chunks)

-- the contents of the log file, which `open` truncates; `none` is a file that cannot be opened
unfoldable pub pty_tracker : Bool → (ℕ → Option ℕ) → List Bytes → Option Bytes
pty_tracker opens writes chunks = if opens then some (copy_chunks writes 0 chunks) else none
