-- ===== src/Cpuinfo/Blocks.antt =====
-- The whole file: one description for each processor of the host.
use vzgot.Base.{ℕ, ◌+◌, Bool, true, false, List, [], ◌∷◌, ◌++◌, All}
use vzgot.Text.{Bytes}
use vzgot.Cpuinfo.Block.{Entry, IsEntry, text, shown}

-- a processor of the host: whether the container may use it, and its description
abbrev pub Cpu : Type 0
Cpu = Bool × List Entry

abbrev pub flags : List Cpu → List (Bool × Bool)
flags [] = []
flags ((c, es) ∷ cpus) = (true, c) ∷ flags cpus

abbrev pub host_file : List Cpu → Bytes
host_file [] = []
host_file ((c, es) ∷ cpus) = text es (host_file cpus)

abbrev pub HasEntries : Cpu → Type 0
HasEntries (c, es) = All IsEntry es

-- the descriptions of the container's processors alone, numbered from `numcpu`
unfoldable pub chosen : ℕ → ℕ → List Cpu → Bytes
chosen selected numcpu [] = []
chosen selected numcpu ((false, es) ∷ cpus) = chosen selected numcpu cpus
chosen selected numcpu ((true, es) ∷ cpus) =
    shown selected numcpu es ++ chosen selected (numcpu + 1) cpus
