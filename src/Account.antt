-- ===== src/Account.antt =====
-- What is read of a container's control group and of the host, lib/subprc.c: prc_cnt_pids_current,
-- prc_cnt_usage, prc_cnt_pressure, prc_host_loadavg and prc_upd_users. A file is its bytes, or
-- `none` if it cannot be opened; the conversions of the C library are parameters. A function gives
-- what it returns and what its result argument holds then.
pub mod Field
mod Examples
use vzgot.Base.{
  ℕ, zero, suc, ◌+◌, ◌^◌, ◌%◌, Bool, true, false, ◌&&◌, ◌||◌, not, Option, none, some, List, [],
  ◌∷◌, length, ltb, ◌==◌, if◌then◌else◌,
}
use vzgot.Text.{Bytes, codes, line_of, c_str, clean_string}
use vzgot.Template.Voc.{begins}

-- ---- the loops over the lines ----

abbrev pub or_later : Bool → Bytes → Option Bytes → Option Bytes
or_later true line later = some line
or_later false line later = later

-- the first line that begins with the key; `edit` is what is done to a line before
unfoldable pub find_field : (Bytes → Bytes) → Bytes → ℕ → Bytes → Option Bytes
find_field edit key zero file = none
find_field edit key (suc fuel) [] = none
find_field edit key (suc fuel) (c ∷ file) =
    let (line, rest) = line_of 99 (c ∷ file) in
    or_later (begins key (edit (c_str line))) (edit (c_str line)) (find_field edit key fuel rest)

-- every line takes a byte at least
abbrev pub search_file : (Bytes → Bytes) → Bytes → Option Bytes → Option Bytes
search_file edit key none = none
search_file edit key (some file) = find_field edit key (length file) file

-- ---- prc_cnt_usage ----

-- behind the first blank
unfoldable pub behind_blank : Bytes → Option Bytes
behind_blank [] = none
behind_blank (c ∷ s) = if c == b' ' then some s else behind_blank s

abbrev pub usage_at : (Bytes → ℕ) → ℕ → Option Bytes → Bool × ℕ
usage_at strtoull usage none = (false, usage)
usage_at strtoull usage (some ptr) = (true, strtoull ptr)

abbrev pub usage_in : (Bytes → ℕ) → ℕ → Option Bytes → Bool × ℕ
usage_in strtoull usage none = (false, usage)
usage_in strtoull usage (some line) = usage_at strtoull usage (behind_blank line)

unfoldable pub cnt_usage : (Bytes → ℕ) → Option Bytes → ℕ → Bool × ℕ
cnt_usage strtoull file usage =
    usage_in strtoull usage (search_file (λ s. s) (codes "usage_usec") file)

-- ---- prc_cnt_pressure ----

-- `scan` is FMT: the number behind `total=`, if the line has that form
abbrev pub pressure_in : (Bytes → Option ℕ) → ℕ → Option Bytes → Bool × ℕ
pressure_in scan usage none = (false, usage)
pressure_in scan usage (some line) = elim (scan line) [ none ↦ (false, usage) | some n ↦ (true, n) ]

unfoldable pub cnt_pressure : (Bytes → Option ℕ) → Option Bytes → ℕ → Bool × ℕ
cnt_pressure scan file usage = pressure_in scan usage (search_file clean_string (codes "some") file)

-- ---- prc_cnt_pids_current ----

-- phase 2; `strtoul` gives the number and whether `errno` is ERANGE
unfoldable pub pids_in : (Bytes → ℕ × Bool) → ℕ → Bytes → Bool × ℕ
pids_in strtoul pids [] = (true, pids)
pids_in strtoul pids (c ∷ line) =
    let (result, erange) = strtoul (c ∷ line) in
    if erange || not (ltb result (2 ^ 32)) then (false, 0) else (true, result)

unfoldable pub cnt_pids_current : (Bytes → ℕ × Bool) → Option Bytes → ℕ → Bool × ℕ
unfolding pids_in
cnt_pids_current strtoul none pids = (false, pids)
cnt_pids_current strtoul (some []) pids = (false, pids)
cnt_pids_current strtoul (some (c ∷ file)) pids =
    pids_in strtoul pids (c_str (line_of 99 (c ∷ file)).0)

-- ---- prc_host_loadavg ----

-- three numbers of type double
abbrev pub Averages : Type 0 → Type 0
Averages Double = Double × Double × Double

-- `scan` gives how many of the three it has set, and all three
unfoldable pub host_loadavg :
    {Double : Type 0}
    → Double
    → (Bytes → Averages Double → ℕ × Averages Double)
    → Option Bytes
    → Bool × Averages Double
host_loadavg nought scan none = (false, (nought, nought, nought))
host_loadavg nought scan (some []) = (false, (nought, nought, nought))
host_loadavg nought scan (some (c ∷ file)) =
    let (n, avgs) = scan (c_str (line_of 198 (c ∷ file)).0) (nought, nought, nought) in
    (n == 3, avgs)

-- ---- prc_upd_users ----

-- USER_PROCESS is 7; the entries are their types and names
unfoldable pub count_users : List (ℕ × Bytes) → ℕ → ℕ
count_users [] count = count
count_users ((ut_type, ut_user) ∷ entries) count = count_users entries (
    if ut_type == 7 && (elim ut_user [ [] ↦ false | c ∷ s ↦ true ])
    then (count + 1) % 2 ^ 32
    else count)

-- `none` is a file without read access
unfoldable pub upd_users : Option (List (ℕ × Bytes)) → ℕ → Bool × ℕ
unfolding count_users
upd_users none nbrusr = (false, nbrusr)
upd_users (some entries) nbrusr = (true, count_users entries 0)
