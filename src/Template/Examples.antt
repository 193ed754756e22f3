-- ===== src/Template/Examples.antt =====
-- A small template, and the theorems on it.
use vzgot.Base.{
  ℕ, zero, suc, ◌≡◌, refl, true, false, Option, none, some, List, [], ◌∷◌, ◌++◌, map, arith, length,
}
use vzgot.Text.{Bytes, codes, line_of, c_str, clean_string, skip_blanks, cut_tail}
use vzgot.Template.Voc.{Known, cname, pid, number, lookup}
use vzgot.Template.Buffer.{edit, paste, str_len}
use vzgot.Template.Load.{IsLoaded, marked, lines_read, open_online-IsLoaded}
use vzgot.Template.Update.{IsShown}
use vzgot.Template.Substitute.{Part, IsPart}
use vzgot.Template.Flush.{Line, IsLine, source, result, flush-update}
use vzgot.Template.{
  Var, Template, Value, find_var, parse_var, scanvar, take_line, take_lines, scan_file, open_file,
  open_online, update_online, print_lines, flush_online,
}

abbrev name_var : Var
name_var = record { code = cname; format = codes "%s" }

abbrev pid_var : Var
pid_var = record { code = pid; format = codes "%d" }

abbrev vars : List Var
vars = name_var ∷ pid_var ∷ []

-- every variable prints `vps`
abbrev value : Value
value v = some (3, codes "vps" ++ (0 ∷ []))

abbrev file : Bytes
file = codes "# online\n$CNAME=<%s>\n$PID=<%d>\n>name $CNAME: pid $PID:\n"

abbrev name_part : Part
name_part = record { before = codes "name "; name = codes "CNAME"; shown = codes "vps" }

abbrev pid_part : Part
pid_part = record { before = codes " pid "; name = codes "PID"; shown = codes "vps" }

abbrev line : Line
line = record { parts = name_part ∷ pid_part ∷ []; tail = [] }

abbrev template : Template
template = record { vars = vars; lines = source line ∷ []; updated = []; status = true }

abbrev files : Bytes → Option Bytes
files name = some file

open_test : open_online files true (some (codes "online")) ≡ some template
unfolding open_online open_file scan_file take_lines take_line scanvar parse_var find_var lookup
    number line_of c_str clean_string skip_blanks cut_tail
open_test = refl

open_online-IsLoaded_example :
    IsLoaded template × (template.lines ≡ marked (lines_read (length file) file))
open_online-IsLoaded_example =
    open_online-IsLoaded files (codes "online") file template refl open_test

name-IsShown : IsShown value vars (codes "CNAME") (codes "vps")
unfolding lookup find_var number
name-IsShown = record {
  found = record { varname = codes "CNAME"; code = cname };
  var = name_var;
  pad = 0 ∷ [];
  is_known = refl;
  is_declared = refl;
  is_valued = refl;
  nonempty = omega arith;
  in_name = omega arith;
  name_fits = omega arith;
}

pid-IsShown : IsShown value vars (codes "PID") (codes "vps")
unfolding lookup find_var number
pid-IsShown = record {
  found = record { varname = codes "PID"; code = pid };
  var = pid_var;
  pad = 0 ∷ [];
  is_known = refl;
  is_declared = refl;
  is_valued = refl;
  nonempty = omega arith;
  in_name = omega arith;
  name_fits = omega arith;
}

name_part-IsPart : IsPart value vars name_part
name_part-IsPart = record {
  is_shown = name-IsShown;
  fits = omega arith;
  plain = omega arith;
  text = omega arith;
}

pid_part-IsPart : IsPart value vars pid_part
pid_part-IsPart = record {
  is_shown = pid-IsShown;
  fits = omega arith;
  plain = omega arith;
  text = omega arith;
}

line-IsLine : IsLine value vars line
line-IsLine = record {
  few = omega arith;
  fits = omega arith;
  are_parts = (name_part-IsPart, (pid_part-IsPart, tt));
  ends = tt;
}

flush-update_example :
    (t u : Template) × (update_online value (λ l. []) true template ≡ some (false, t))
    × (flush_online t ≡ (true, print_lines (map result (line ∷ [])), u))
    × (flush_online u ≡ (false, [], u))
flush-update_example = flush-update value (λ l. []) template line [] refl (line-IsLine, tt)

-- the empty name finds the first variable, and an abbreviation the first that fits
empty_name : (k : Known) × (lookup [] ≡ some k) × (number k.code ≡ 0)
unfolding lookup number
empty_name = (_, refl, refl)

-- bytes to try the editing on
abbrev blanks : ℕ → Bytes
blanks zero = []
blanks (suc n) = b' ' ∷ blanks n

-- a value of 61 bytes is read past the end of `replace`, and one of 60 is not
long_value : edit 5 61 (blanks 60) (blanks 70 ++ 0 ∷ []) ≡ none
unfolding edit paste str_len
long_value = refl

-- a value that fills the buffer has its NUL written behind it
full_value : edit 2 4 (blanks 60) (b'$' ∷ b':' ∷ 0 ∷ 0 ∷ []) ≡ none
unfolding edit paste str_len
full_value = refl
