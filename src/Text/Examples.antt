-- ===== src/Text/Examples.antt =====
-- Runs of the text helpers, and the theorems at concrete texts.
use vzgot.Base.{◌≡◌, refl, some, List, [], ◌∷◌}
use vzgot.Text.{
  codes, Voc, cut_tail, skip_blanks, clean_string, line_of, c_str, unescape?, cut_comment, cut_eol,
  starts_with, edit_line, getstr,
}

clean_run : clean_string (codes "\t  a b\t \r\n") ≡ codes "a b\t"
unfolding clean_string skip_blanks cut_tail
clean_run = refl

getstr_run : getstr 100 b'#' (codes "A=x\\#y # note\nB") ≡ some (codes "A=x#y ", codes "B")
unfolding getstr line_of c_str edit_line starts_with cut_comment cut_eol unescape?
getstr_run = refl

-- a mark right behind an escaped one is not seen
getstr_pair : edit_line b'#' (codes "a\\## b") ≡ codes "a## b"
unfolding edit_line starts_with cut_comment cut_eol unescape?
getstr_pair = refl

abbrev table : List Voc
table =
    record { code = 0; key = codes "on" }
    ∷ record { code = 1; key = codes "online" }
    ∷ record { code = 2; key = codes "list" }
    ∷ []
