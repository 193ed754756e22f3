-- ===== src/Pid.antt =====
-- The process numbers of a container, lib/unicnt.c: the file that cnt_set_cont_pid writes and
-- cnt_get_cont_pid reads, and the search of cnt_get_monitoring_pid. A file is its bytes; whether
-- the calls on it succeed, and what the kernel's files hold, are parameters. Process numbers are
-- below 2^31.
pub mod Digits
pub mod File
pub mod Monitor
mod Examples
use vzgot.Base.{
  ℕ, zero, suc, ◌+◌, ◌-◌, ◌*◌, ◌/◌, ◌%◌, Bool, true, false, ◌&&◌, Option, none, some, List, [], ◌∷◌,
  ◌++◌, ltb, leb, ◌==◌, if◌then◌else◌, length, drop,
}
use vzgot.Text.{Bytes, codes, line_of, skip_spaces}

-- ---- %d ----

-- `digits` is what stands behind the digits still to be written
unfoldable pub to_digits : ℕ → ℕ → Bytes → Bytes
to_digits zero n digits = digits
to_digits (suc fuel) n digits =
    let more = to_digits fuel (n / 10) ((b'0' + n % 10) ∷ digits) in
    if ltb n 10 then (b'0' + n) ∷ digits else more

-- `fprintf` of a number of at most ten digits
unfoldable pub print_number : ℕ → Bytes
print_number n = to_digits 10 n []

abbrev pub is_digit : ℕ → Bool
is_digit c = leb b'0' c && leb c b'9'

-- the number that goes on with these digits, and what is behind them
unfoldable pub more_digits : ℕ → Bytes → ℕ × Bytes
more_digits n [] = (n, [])
more_digits n (c ∷ s) =
    let more = more_digits (n * 10 + (c - b'0')) s in if is_digit c then more else (n, c ∷ s)

unfoldable pub number_at : Bytes → Option (ℕ × Bytes)
number_at [] = none
number_at (c ∷ s) = if is_digit c then some (more_digits 0 (c ∷ s)) else none

-- `%d` of a number without a sign
unfoldable pub scan_number : Bytes → Option (ℕ × Bytes)
scan_number s = number_at (skip_spaces s)

-- ---- the file ----

-- the answers of the calls that write the file; what is not flushed is lost
pub record Writing : Type 0 where
  pub opens : Bool
  pub prints : Bool
  pub flushes : Bool

-- what it returns, and the file
unfoldable pub set_cont_pid : Writing → ℕ → Option Bytes → Bool × Option Bytes
set_cont_pid w cpid file =
    if w.opens
    then (if w.prints
        then (true, some (if w.flushes then print_number cpid ++ b'\n' ∷ [] else []))
        else (false, some []))
    else (false, file)

abbrev pub number_or_zero : Option (ℕ × Bytes) → ℕ
number_or_zero none = 0
number_or_zero (some (n, rest)) = n

-- `none` is a file that cannot be opened; at its end `fgets` gives nothing
unfoldable pub get_cont_pid : Option Bytes → ℕ
get_cont_pid none = 0
get_cont_pid (some []) = 0
get_cont_pid (some (c ∷ file)) = number_or_zero (scan_number (line_of 78 (c ∷ file)).0)

-- what it returns, and the file
unfoldable pub rm_cont_pid : Bool → Option Bytes → Bool × Option Bytes
rm_cont_pid unlinks file = if unlinks then (true, none) else (false, file)

-- ---- the monitoring process ----

-- `strncmp(line,key,strlen(key))==0`, with what lies behind the key
unfoldable pub behind : Bytes → Bytes → Option Bytes
behind [] s = some s
behind (k ∷ key) [] = none
behind (k ∷ key) (c ∷ s) = if k == c then behind key s else none

abbrev pub ns_key : Bytes
ns_key = codes "NSpid:"

abbrev pub or_line : Option Bytes → Option Bytes → Option Bytes
or_line none later = later
or_line (some s) later = some s

-- the line of the key in a file, by its rest; `none` if the file has no such line
unfoldable pub find_line : ℕ → Bytes → Option Bytes
find_line zero file = none
find_line (suc fuel) [] = none
find_line (suc fuel) (c ∷ file) =
    let (line, rest) = line_of 255 (c ∷ file) in or_line (behind ns_key line) (find_line fuel rest)

abbrev pub second : Option (ℕ × Bytes) → Option (ℕ × Bytes)
second none = none
second (some (h_pid, rest)) = scan_number rest

abbrev pub is_two : Option (ℕ × Bytes) → Bool
is_two none = false
is_two (some (ns_pid, rest)) = ns_pid == 2

-- `sscanf(line,"NSpid:\t%d\t%d",&h_pid,&ns_pid)==2 && ns_pid==MONPID`, behind the key
unfoldable pub is_monitor : Option Bytes → Bool
is_monitor none = false
is_monitor (some s) = is_two (second (scan_number s))

-- the child's status file, if it can be opened, and what the other children give
abbrev pub judge_child : ℕ → Option Bytes → ℕ → ℕ
judge_child child none others = child
judge_child child (some file) others =
    if is_monitor (find_line (length file) file) then child else others

-- The `fscanf` loop over the children; `status` gives the bytes of a child's status file, one at
-- least, if it can be opened.
unfoldable pub scan_children : (ℕ → Option Bytes) → List ℕ → ℕ
scan_children status [] = 0
scan_children status (child ∷ children) =
    judge_child child (status child) (scan_children status children)

unfoldable pub get_monitoring_pid : (ℕ → Option Bytes) → Option (List ℕ) → ℕ
get_monitoring_pid status none = 0
get_monitoring_pid status (some children) = scan_children status children
