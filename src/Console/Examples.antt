-- ===== src/Console/Examples.antt =====
-- Small consoles, and the theorems on them.
use vzgot.Base.{
  ℕ, ◌≡◌, ◌==◌, refl, Bool, true, false, Option, none, some, List, [], ◌∷◌, if◌then◌else◌,
}
use vzgot.Text.{Bytes, codes}
use vzgot.Console.{Op, fork, World, State, track_console, pty_tracker, copy_chunks}
use vzgot.Console.Steps.{Ended, track_console-Ended}

abbrev no_fork : Op → Bool
no_fork fork = false
no_fork _ = true

abbrev world : World
world = record { answer = λ t op. no_fork op; slave_fd = λ t. 9 }

abbrev start : State
start = record { slave = none; trace = [] }

track_console-Ended_example : Ended world start (track_console world start)
track_console-Ended_example = track_console-Ended world start

abbrev chunks : List Bytes
chunks = codes "boot" ∷ codes " ok" ∷ codes "lost" ∷ []

abbrev disk_full : ℕ → Option ℕ
disk_full i = if i == 0 then some 4 else if i == 1 then some 3 else none

full_disk : pty_tracker true disk_full chunks ≡ some (codes "boot ok")
unfolding pty_tracker copy_chunks
full_disk = refl
