-- ===== src/Template.antt =====
-- The templates of lib/unicfg.c: cfg_open_online with scanvar, cfg_update_online with adjusting
-- and the end of do_resolv, cfg_flush_online. A buffer is the list of all its bytes, those behind
-- the NUL included, and `none` is an access outside of a buffer. What a variable's format prints
-- for the container's status is a parameter.
pub mod Voc
pub mod Buffer
pub mod Names
pub mod Edit
pub mod Load
pub mod Update
pub mod Substitute
pub mod Flush
mod Examples
use vzgot.Base.{
  ℕ, zero, suc, ◌+◌, ◌-◌, Bool, true, false, not, ◌&&◌, Option, none, some, List, [], ◌∷◌, ◌++◌,
  map, ltb, leb, ◌==◌, if◌then◌else◌, length, set, take, drop, min,
}
use vzgot.Text.{Bytes, line_of, c_str, clean_string}
use vzgot.Text.Scan.{span_not, two_words}
use mathlib.Core.Option
use vzgot.Template.Buffer.{edit, mem_set, to_dollar, work_of}
use vzgot.Template.Voc.{Code, Known, number, lookup}

pub record Var : Type 0 where
  pub code : Code
  pub format : Bytes

-- The arrays, NULL for the empty ones. `status` tells whether the container's status was had.
pub record Template : Type 0 where
  pub vars : List Var
  pub lines : List Bytes
  pub updated : List Bytes
  pub status : Bool

abbrev pub calloc_template : Template
calloc_template = record { vars = []; lines = []; updated = []; status = false }

-- ---- scanvar ----

unfoldable pub behind_name : Bytes → Bytes → Option (Bytes × Bytes)
unfolding span_not two_words
behind_name name (x ∷ y ∷ rest) =
    if x == b'=' && y == b'<' then two_words name (span_not b'>' 49 rest).0 else none
behind_name name _ = none

-- `sscanf(line,"%49[^=]=<%49[^>]>",name,format)==2`
unfoldable pub parse_var : Bytes → Option (Bytes × Bytes)
unfolding behind_name span_not
parse_var line = let (name, rest) = span_not b'=' 49 line in behind_name name rest

-- the first variable of that code
unfoldable pub find_var : Code → List Var → Option Var
find_var c [] = none
find_var c (v ∷ vars) = if number c == number v.code then some v else find_var c vars

-- with what was declared before for that code
abbrev pub add_unless : Option Var → Known → Bytes → Template → Bool × Template
add_unless (some v) found format tpl = (false, tpl)
add_unless none found format tpl =
    (true, record tpl { vars = tpl.vars ++ record { code = found.code; format = format } ∷ [] })

unfoldable pub add_var : Known → Bytes → Template → Bool × Template
add_var found format tpl = add_unless (find_var found.code tpl.vars) found format tpl

unfoldable pub declare : Option Known → Bytes → Template → Bool × Template
unfolding add_var
declare none format tpl = (false, tpl)
declare (some found) format tpl = add_var found format tpl

unfoldable pub scan_parsed : Option (Bytes × Bytes) → Template → Bool × Template
unfolding declare
scan_parsed none tpl = (false, tpl)
scan_parsed (some (name, format)) tpl = declare (lookup name) format tpl

unfoldable pub scanvar : Template → Bytes → Bool × Template
unfolding scan_parsed
scanvar tpl line = scan_parsed (parse_var line) tpl

-- ---- cfg_open_online ----

abbrev pub also : Bool → Bool × Template → Bool × Template
also isok (b, tpl) = (isok && b, tpl)

-- the `switch` on the first byte of the cleaned line, with `isok`
unfoldable pub take_line : Bytes → Bool × Template → Bool × Template
take_line [] (isok, tpl) = (isok, tpl)
take_line (c ∷ line) (isok, tpl) =
    if c == b'$'
    then also isok (scanvar tpl line)
    else if c == b'>'
    then (isok, record tpl { lines = tpl.lines ++ line ∷ [] })
    else (isok, tpl)

-- the `fgets` loop; the fuel is the number of bytes left
unfoldable pub take_lines : ℕ → Bytes → Bool × Template → Bool × Template
take_lines zero file r = r
take_lines (suc fuel) [] r = r
take_lines (suc fuel) (c ∷ file) r =
    let (line, rest) = line_of 298 (c ∷ file) in
    take_lines fuel rest (take_line (clean_string (c_str line)) r)

abbrev pub if_ok : Bool × Template → Option Template
if_ok (true, tpl) = some tpl
if_ok (false, tpl) = none

-- phases 3 to 5; without a status the template comes back as it was allocated
unfoldable pub scan_file : Bool → Bytes → Option Template
scan_file false file = some calloc_template
scan_file true file =
    if_ok (take_lines (length file) file (true, record calloc_template { status = true }))

unfoldable pub open_file : Bool → Option Bytes → Option Template
open_file has_status none = none
open_file has_status (some file) = scan_file has_status file

-- `file` is what `fopen` finds of that name in the configuration directory
unfoldable pub open_online : (Bytes → Option Bytes) → Bool → Option Bytes → Option Template
open_online file has_status none = none
open_online file has_status (some tplname) = open_file has_status (file tplname)

-- ---- adjusting ----

abbrev pub answer : Bool → Option Bytes → Option (Bool × Bytes)
answer isok none = none
answer isok (some buf) = some (isok, buf)

-- What `snprintf` returns for a variable, 0 for less, and the 60 bytes of `replace`; `none` is a
-- code that the switch does not have.
abbrev pub Value : Type 0
Value = Var → Option (ℕ × Bytes)

-- `sscanf(marker,"$%49[^:]",var_name)`; a failed one leaves the name empty
unfoldable pub name_at : Bytes → Bytes
name_at buf = (span_not b':' 49 (c_str (drop 1 buf))).0

abbrev pub glue : Bytes → Option Bytes → Option Bytes
glue before none = none
glue before (some buf) = some (before ++ buf)

abbrev pub go_on : (Bytes → Option Bytes) → Option (Bool × Bytes) → Option Bytes
go_on again none = none
go_on again (some (false, buf)) = some buf
go_on again (some (true, buf)) = again buf

abbrev pub with_updated : Template → Option (List Bytes) → Option (Bool × Template)
with_updated tpl none = none
with_updated tpl (some shown) = some (false, record tpl { updated = shown })

abbrev pub cons_shown : Option Bytes → Option (List Bytes) → Option (List Bytes)
cons_shown (some shown) (some rest) = some (shown ∷ rest)
cons_shown _ _ = none

module _ (value : Value) where
  unfoldable pub resolved : ℕ → Option (ℕ × Bytes) → Bytes → Option (Bool × Bytes)
  unfolding edit
  resolved len none buf = answer false (mem_set b'Z' len buf)
  resolved len (some (num, replace)) buf = answer true (edit (len + 2) num replace buf)

  unfoldable pub use_var : ℕ → Option Var → Bytes → Option (Bool × Bytes)
  unfolding resolved
  use_var len none buf = answer false (mem_set b'Y' len buf)
  use_var len (some var) buf = resolved len (value var) buf

  unfoldable pub use_known : List Var → ℕ → Option Known → Bytes → Option (Bool × Bytes)
  unfolding use_var
  use_known vars len none buf = answer false (mem_set b'X' len buf)
  use_known vars len (some found) buf = use_var len (find_var found.code vars) buf

  unfoldable pub adjusting : List Var → Bytes → Option (Bool × Bytes)
  unfolding use_known name_at
  adjusting vars buf = use_known vars (length (name_at buf)) (lookup (name_at buf)) buf

  -- ---- cfg_update_online ----

  unfoldable pub at_dollar :
      (Bytes → Option Bytes) → List Var → Bytes → Option (Bytes × Option Bytes) → Option Bytes
  at_dollar again vars buf none = none
  at_dollar again vars buf (some (before, none)) = some buf
  at_dollar again vars buf (some (before, some rest)) =
      glue before (go_on again (adjusting vars rest))

  -- the `while` loop over a line, on the buffer from `scan` on; it ends when `numvar` is 0
  unfoldable pub scan_work : ℕ → List Var → Bytes → Option Bytes
  scan_work zero vars buf = some buf
  scan_work (suc numvar) vars buf =
      at_dollar (λ b. scan_work numvar vars b) vars buf (to_dollar buf)

  unfoldable pub show_line : (Bytes → Bytes) → List Var → Bytes → Option Bytes
  show_line stale vars line = Option.map c_str (scan_work 10 vars (work_of (stale line) line))

  unfoldable pub show_lines : (Bytes → Bytes) → List Var → List Bytes → Option (List Bytes)
  show_lines stale vars [] = some []
  show_lines stale vars (line ∷ lines) =
      cons_shown (show_line stale vars line) (show_lines stale vars lines)

  -- what it returns, and the template; `refreshes` is what sys_update_cont_status answers
  unfoldable pub update_online : (Bytes → Bytes) → Bool → Template → Option (Bool × Template)
  update_online stale refreshes tpl =
      if length tpl.lines == 0
      then some (false, tpl)
      else if not refreshes
      then some (false, tpl)
      else with_updated tpl (show_lines stale tpl.vars tpl.lines)

-- ---- cfg_flush_online ----

unfoldable pub print_lines : List Bytes → Bytes
print_lines [] = []
print_lines (line ∷ lines) = line ++ b'\n' ∷ print_lines lines

-- what it returns, the bytes printed, and the template
unfoldable pub flush_online : Template → Bool × Bytes × Template
flush_online tpl =
    if length tpl.updated == 0
    then (false, [], tpl)
    else (true, print_lines tpl.updated, record tpl { updated = [] })
