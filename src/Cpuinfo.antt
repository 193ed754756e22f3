-- ===== src/Cpuinfo.antt =====
-- The container's view of /proc/cpuinfo, lib/unicnt.c: skipcpuinfo, duplicate and the loop of
-- setcpuinfo. A file is the list of its bytes still to be read, or the bytes written to it.
-- What skipcpuinfo and duplicate return is not looked at by setcpuinfo and is left out.
pub mod Block
pub mod Skip
pub mod Blocks
mod Examples
use vzgot.Base.{
  ℕ, zero, suc, ◌+◌, Bool, true, false, Option, none, some, List, [], ◌∷◌, ◌++◌, take, length, ◌==◌,
  if◌then◌else◌,
}
use vzgot.Text.{Bytes, codes, line_of, c_str, clean_string, starts_with}
use vzgot.Template.Voc.{begins}
use vzgot.Pid.{print_number}

-- ---- duplicate ----

pub data Action : Type 0 where
  cores model processor sibling keep discard : Action

abbrev pub markers : List (Bytes × Action)
markers =
    (codes "power management", discard)
    ∷ (codes "cache_alignment", keep)
    ∷ (codes "initial apicid", discard)
    ∷ (codes "addresses sizes", keep)
    ∷ (codes "fpu_exception", keep)
    ∷ (codes "physical id", keep)
    ∷ (codes "model name", model)
    ∷ (codes "cache size", keep)
    ∷ (codes "cpu family", keep)
    ∷ (codes "cpu cores", cores)
    ∷ (codes "processor", processor)
    ∷ (codes "vendor_id", keep)
    ∷ (codes "bogomips", keep)
    ∷ (codes "siblings", sibling)
    ∷ (codes "core id", keep)
    ∷ (codes "cpu MHz", keep)
    ∷ (codes "clflush", keep)
    ∷ (codes "apicid", discard)
    ∷ (codes "model", keep)
    ∷ (codes "flags", keep)
    ∷ (codes "fpu", keep)
    ∷ (codes "wp", keep)
    ∷ []

unfoldable pub find_action : List (Bytes × Action) → Bytes → Action
find_action [] line = discard
find_action ((key, act) ∷ table) line = if begins key line then act else find_action table line

abbrev pub put_front : ℕ → Option (Bytes × Bytes) → Option (Bytes × Bytes)
put_front c none = none
put_front c (some (key, value)) = some (c ∷ key, value)

-- the line cut at its first `:`
unfoldable pub split_colon : Bytes → Option (Bytes × Bytes)
split_colon [] = none
split_colon (c ∷ s) = if c == b':' then some ([], s) else put_front c (split_colon s)

-- what is written for a line
unfoldable pub show_line : ℕ → ℕ → Action → Bytes → Bytes → Bytes
show_line selected numcpu keep key value = key ++ (b':' ∷ (value ++ b'\n' ∷ []))
show_line selected numcpu processor key value =
    key ++ (codes ": " ++ (print_number numcpu ++ b'\n' ∷ []))
show_line selected numcpu model key value =
    take 1023 (key ++ (b':' ∷ (value ++ codes " [VZGOT Provisioned Core]"))) ++ b'\n' ∷ []
show_line selected numcpu sibling key value =
    key ++ (codes ": " ++ (print_number selected ++ b'\n' ∷ []))
show_line selected numcpu cores key value =
    key ++ (codes ": " ++ (print_number selected ++ b'\n' ∷ []))
show_line selected numcpu discard key value = []

-- what is written, and what is left of the host's file
abbrev pub Copied : Type 0
Copied = Bytes × Bytes

abbrev pub with_line : Bytes → Copied → Copied
with_line shown (later, rest) = (shown ++ later, rest)

module _ (selected numcpu : ℕ) where
  -- the body of the loop for a line with a `:`; a line without one ends the loop
  unfoldable pub on_line : Option (Bytes × Bytes) → Bytes → Copied → Bytes → Copied
  on_line none line later rest = (b'\n' ∷ [], rest)
  on_line (some (key, value)) line later rest =
      with_line (show_line selected numcpu (find_action markers line) key value) later

  -- with the line cleaned; an empty one ends the loop
  unfoldable pub on_clean : Bytes → Copied → Bytes → Copied
  on_clean [] later rest = (b'\n' ∷ [], rest)
  on_clean (c ∷ line) later rest = on_line (split_colon (c ∷ line)) (c ∷ line) later rest

  -- the `fgets` loop, and the line feed behind it
  unfoldable pub duplicate : ℕ → Bytes → Copied
  duplicate zero fin = (b'\n' ∷ [], fin)
  duplicate (suc fuel) [] = (b'\n' ∷ [], [])
  duplicate (suc fuel) (c ∷ fin) =
      let (line, rest) = line_of 898 (c ∷ fin) in
      on_clean (clean_string (c_str line)) (duplicate fuel rest) rest

-- ---- skipcpuinfo ----

abbrev pub skip_more : Bool → Bytes → Bytes → Bytes
skip_more true rest later = rest
skip_more false rest later = later

-- what is left of the file
unfoldable pub skip_cpu : ℕ → Bytes → Bytes
skip_cpu zero fin = fin
skip_cpu (suc fuel) [] = []
skip_cpu (suc fuel) (c ∷ fin) =
    let (line, rest) = line_of 198 (c ∷ fin) in
    skip_more (starts_with b'\n' line) rest (skip_cpu fuel rest)

-- ---- setcpuinfo ----

-- The loop of phase 4: for each processor, whether the host and whether the container may use it;
-- `numcpu` counts those copied.
unfoldable pub copy_cpus : ℕ → ℕ → List (Bool × Bool) → Bytes → Bytes
copy_cpus selected numcpu [] fin = []
copy_cpus selected numcpu ((false, c) ∷ cpus) fin = copy_cpus selected numcpu cpus fin
copy_cpus selected numcpu ((true, false) ∷ cpus) fin =
    copy_cpus selected numcpu cpus (skip_cpu (length fin) fin)
copy_cpus selected numcpu ((true, true) ∷ cpus) fin =
    let (shown, rest) = duplicate selected numcpu (length fin) fin in
    shown ++ copy_cpus selected (numcpu + 1) cpus rest
