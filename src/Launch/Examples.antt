-- ===== src/Launch/Examples.antt =====
-- The theorems at concrete inputs, and the architectures.
use vzgot.Base.{◌≡◌, refl, true, some, [], pos}
use vzgot.Text.{
  codes, same, getstr, clean_string, line_of, c_str, edit_line, cut_eol, cut_comment, starts_with,
  skip_blanks, cut_tail, unescape?,
}
use vzgot.Launch.{World, cnt_exit, inherited, Files, Stdio, initscript, cnt_getarch, find_arch}
use vzgot.Launch.Exit.{Guarded, cnt_exit-Guarded}

-- a container that does not go
abbrev stubborn : World
stubborn = record { answer = λ t op. true }

cnt_exit-Guarded_example : Guarded 12 (cnt_exit stubborn 12 []).1
cnt_exit-Guarded_example = cnt_exit-Guarded stubborn 12 [] tt

abbrev files : Files
files n = some inherited

abbrev both : Stdio
both = record { new_stdout = some 3; new_stderr = some 4; dups_stdout = true; dups_stderr = true }

-- the exit status of the script is no failure
script_test : initscript true true true (pos 256) ≡ true
unfolding initscript
script_test = refl

arch_test : cnt_getarch (some (codes "x86_64 # the usual one\n")) ≡ codes "x86_64"
unfolding cnt_getarch find_arch same getstr edit_line cut_eol cut_comment starts_with clean_string
    skip_blanks cut_tail line_of c_str unescape?
arch_test = refl
