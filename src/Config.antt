-- ===== src/Config.antt =====
-- The configuration of lib/subcfg.c: gesenv and cfg_loadconfig, which put the assignments of text
-- files into the environment. A file is its bytes; the files that can be opened, and whether the
-- environment takes a change, are parameters.
pub mod Lines
pub mod Order
pub mod Total
mod Examples
use vzgot.Base.{
  ℕ, zero, suc, ◌+◌, ◌-◌, Bool, true, false, not, ◌&&◌, Option, none, some, List, [], ◌∷◌, ◌++◌,
  ◌==◌, if◌then◌else◌, length, take, ℤ, pos, negsuc,
}
use vzgot.Text.{Bytes, codes, getstr, skip_spaces, is_space, same}
use vzgot.Text.Scan.{holds, span_not, word_of, two_words}

abbrev pub Env : Type 0
Env = List (Bytes × Bytes)

unfoldable pub get_env : Bytes → Env → Option Bytes
get_env name [] = none
get_env name ((n, v) ∷ env) = if same n name then some v else get_env name env

-- `setenv(name,value,true)`
unfoldable pub set_env : Bytes → Bytes → Env → Env
set_env name value [] = (name, value) ∷ []
set_env name value ((n, v) ∷ env) =
    if same n name then (name, value) ∷ env else (n, v) ∷ set_env name value env

unfoldable pub unset_env : Bytes → Env → Env
unset_env name [] = []
unset_env name ((n, v) ∷ env) = if same n name then env else (n, v) ∷ unset_env name env

pub record World : Type 0 where
  -- the bytes of the file of that name, if `fopen` can open it
  pub file : Bytes → Option Bytes
  -- whether `setenv` and `unsetenv` succeed
  pub sets : Bytes → Bytes → Env → Bool
  pub unsets : Bytes → Env → Bool

-- ---- a line ----

unfoldable pub behind_eq : Bytes → Bytes → Option (Bytes × Bytes)
unfolding two_words word_of
behind_eq var [] = none
behind_eq var (x ∷ rest) =
    if x == b'=' then two_words var (word_of 199 (skip_spaces rest)) else none

-- `sscanf(line,"%100[^=]=%199s",var,contents)==2`
unfoldable pub scan_line : Bytes → Option (Bytes × Bytes)
unfolding behind_eq span_not
scan_line line = let (var, rest) = span_not b'=' 100 line in behind_eq var rest

-- a value in double quotes loses them, with all behind the second
unfoldable pub unquote : Bytes → Bytes
unfolding span_not
unquote [] = []
unquote (c ∷ s) = if c == b'"' then (span_not b'"' (length s) s).0 else c ∷ s

-- `snprintf` into a buffer of PATH_MAX bytes
unfoldable pub main_path : Bytes → Bytes
main_path confdir = take 4095 (confdir ++ codes "/vzgot_config")

unfoldable pub cont_path : Bytes → Bytes → Bytes
cont_path confdir contname = take 4095 (confdir ++ codes "/names/" ++ contname)

module _ (w : World) where
  unfoldable pub assign : Bool → Bytes → Bytes → Env → Env
  assign true var contents env = if w.sets var contents env then set_env var contents env else env
  assign false var contents env = if w.unsets var env then unset_env var env else env

  unfoldable pub scanned : Bool → Option (Bytes × Bytes) → Env → Env
  unfolding assign unquote
  scanned toadd none env = env
  scanned toadd (some (var, contents)) env = assign toadd var (unquote contents) env

  -- the body of the loop, behind the read
  unfoldable pub do_line : Bool → Bytes → Env → Env
  unfolding scanned scan_line holds
  do_line toadd line env =
      if length line == 0
      then env
      else if not (holds b'=' line)
      then env
      else scanned toadd (scan_line line) env

  -- the `while` loop; `none` means that the fuel ran out
  unfoldable pub do_lines : Bool → ℕ → Bytes → Env → Option Env
  unfolding do_line
  do_lines toadd zero file env = none
  do_lines toadd (suc fuel) file env = elim (getstr 1000 b'#' file) [
    | none ↦ some env
    | some (line, rest) ↦ do_lines toadd fuel rest (do_line toadd line env)
  ]

  abbrev pub loaded : Option Env → Option (ℤ × Env)
  loaded none = none
  loaded (some env) = some (pos 0, env)

  -- the status, and the environment
  unfoldable pub read_all : Bool → Option Bytes → Env → Option (ℤ × Env)
  read_all toadd none env = some (negsuc 0, env)
  read_all toadd (some file) env = loaded (do_lines toadd (suc (length file)) file env)

  unfoldable pub gesenv : Bytes → Bool → Env → Option (ℤ × Env)
  gesenv filename toadd env = read_all toadd (w.file filename) env

  -- phases 1 and 2; a status below zero leaves the loop
  unfoldable pub load_cont : Bytes → Option Bytes → Option (ℤ × Env) → Option (ℤ × Env)
  load_cont dir contname none = none
  load_cont dir contname (some (negsuc n, env)) = some (negsuc n, env)
  load_cont dir none (some (pos n, env)) = some (pos n, env)
  load_cont dir (some name) (some (pos n, env)) = gesenv (cont_path dir name) true env

  -- `default_dir` is what apl_dfltconfdir gives
  unfoldable pub loadconfig : Bytes → Option Bytes → Option Bytes → Env → Option (ℤ × Env)
  loadconfig default_dir confdir contname env =
      let dir : Bytes = elim confdir [ none ↦ default_dir | some d ↦ d ] in
      load_cont dir contname (gesenv (main_path dir) true env)
