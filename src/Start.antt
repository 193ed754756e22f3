-- ===== src/Start.antt =====
-- The starting time of a container, lib/utlsys.c: sys_set_start writes it in a file and get_start
-- reads it. A file is its bytes, or `none` if it cannot be opened.
pub mod Kept
mod Examples
use vzgot.Base.{
  ℕ, zero, suc, ◌+◌, ◌*◌, ◌^◌, ◌%◌, Bool, true, false, Option, none, some, List, [], ◌∷◌, ◌++◌,
  if◌then◌else◌,
}
use vzgot.Text.{Bytes}
use vzgot.Pid.{to_digits, scan_number, number_or_zero}
use vzgot.CpuLimit.{first_line}

-- `gettimeofday` as microseconds of type u_vlong
abbrev pub micros : ℕ → ℕ → ℕ
micros tv_sec tv_usec = (tv_sec * 1000000 + tv_usec) % 2 ^ 64

-- the answers of the calls; `partial` is in the file where `fclose` fails
pub record Writing : Type 0 where
  pub opens : Bool
  pub closes : Bool
  pub partial : Bytes

-- phases 1 and 2; a u_vlong has 20 digits at most
unfoldable pub write_start : Writing → ℕ → Option Bytes → Bool × Option Bytes
write_start w start file =
    if w.opens
    then (if w.closes
        then (true, some (to_digits 20 start (b'\n' ∷ [])))
        else (false, some w.partial))
    else (false, file)

-- what it returns, and the file; `homefs` is the variable of the environment
unfoldable pub set_start : Option Bytes → Writing → ℕ → Option Bytes → Bool × Option Bytes
unfolding write_start
set_start none w start file = (false, file)
set_start (some []) w start file = (false, file)
set_start (some (c ∷ homefs)) w start file = write_start w start file

-- "%llu" of a number without a sign, in the first line
abbrev pub start_in : Option Bytes → ℕ
start_in none = 0
start_in (some line) = number_or_zero (scan_number line)

unfoldable pub get_start : Option Bytes → Option Bytes → ℕ
unfolding first_line
get_start none file = 0
get_start (some []) file = 0
get_start (some (c ∷ homefs)) file = start_in (first_line 99 file)
