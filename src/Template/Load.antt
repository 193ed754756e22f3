-- ===== src/Template/Load.antt =====
-- What cfg_open_online makes of a template file.
use vzgot.Base.{
  ℕ, zero, suc, ◌≤◌, ◌<◌, ◌≡◌, ◌≢◌, refl, sym, ap, subst, ◌∙◌, Bool, true, false, ◌&&◌, Option,
  none, some, inl, inr, List, [], ◌∷◌, ◌++◌, append-nil, append_assoc, ◌==◌, if◌then◌else◌, length,
  All, All-append, arith, Bool-cases,
}
use vzgot.Text.{Bytes, line_of, c_str, clean_string}
use vzgot.Text.Scan.{span_not, two_words}
use vzgot.Template.Voc.{Code, Known, number, lookup}
use vzgot.Template.{
  Var, Template, calloc_template, behind_name, parse_var, find_var, add_unless, add_var, declare,
  scan_parsed, scanvar, take_line, take_lines, if_ok, scan_file, open_file, open_online,
}

-- no variable is declared twice
abbrev pub Distinct : List Var → Type 0
Distinct [] = Unit
Distinct (v ∷ vars) = (find_var v.code vars ≡ none) × Distinct vars

-- a format that `snprintf` gets
abbrev pub HasFormat : Var → Type 0
HasFormat v = (0 < length v.format) × (length v.format ≤ 49)

pub record IsLoaded (t : Template) : Type 0 where
  pub distinct : Distinct t.vars
  pub formats : All HasFormat t.vars
  pub not_shown : t.updated ≡ []

find_var-snoc :
    (c : Code) (vars : List Var) (v : Var)
    → find_var c vars ≡ none
    → number c ≢ number v.code
    → find_var c (vars ++ v ∷ []) ≡ none
unfolding find_var
find_var-snoc c [] v h ne = ground arith
find_var-snoc c (u ∷ vars) v h ne = ground (arith, find_var-snoc c vars v)

Distinct-snoc :
    (vars : List Var) (v : Var)
    → Distinct vars
    → find_var v.code vars ≡ none
    → Distinct (vars ++ v ∷ [])
Distinct-snoc [] v d h = (unfold find_var in refl, tt)
Distinct-snoc (u ∷ vars) v d h = (
  find_var-snoc u.code vars v d.0 (unfold find_var in ground arith),
  Distinct-snoc vars v d.1 (unfold find_var in ground arith),
)

span_not-le : (c n : ℕ) (s : Bytes) → length (span_not c n s).0 ≤ n
unfolding span_not
span_not-le c zero s = omega arith
span_not-le c (suc n) [] = omega arith
span_not-le c (suc n) (x ∷ s) = ground (arith, span_not-le c n s)

-- both words are there, and the second fits
abbrev Parsed : Option (Bytes × Bytes) → Type 0
Parsed none = Unit
Parsed (some (name, format)) = (0 < length format) × (length format ≤ 49)

two_words-Parsed : (s t : Bytes) → length t ≤ 49 → Parsed (two_words s t)
unfolding two_words
two_words-Parsed s [] h = tt
two_words-Parsed [] (d ∷ t) h = tt
two_words-Parsed (c ∷ s) (d ∷ t) h = (omega arith, h)

behind_name-Parsed : (name s : Bytes) → Parsed (behind_name name s)
unfolding behind_name
behind_name-Parsed name [] = tt
behind_name-Parsed name (x ∷ []) = tt
behind_name-Parsed name (x ∷ y ∷ rest) = elim (Bool-cases (x == b'=' && y == b'<')) [
  | inl fits ↦ rw fits (two_words-Parsed name _ (span_not-le b'>' 49 rest))
  | inr differs ↦ rw differs tt
]

add_var-IsLoaded :
    (found : Known) (format : Bytes) (tpl : Template)
    → IsLoaded tpl
    → (0 < length format) × (length format ≤ 49)
    → IsLoaded (add_var found format tpl).1
unfolding add_var
add_var-IsLoaded found format tpl h f = go (find_var found.code tpl.vars) refl
  where
    go :
        (o : Option Var)
        → find_var found.code tpl.vars ≡ o
        → IsLoaded (add_unless o found format tpl).1
    go (some v) e = h
    go none e =
        let v : Var = record { code = found.code; format = format } in
        record {
          distinct = Distinct-snoc tpl.vars v h.distinct e;
          formats = All-append HasFormat tpl.vars (v ∷ []) h.formats (f, tt);
          not_shown = h.not_shown;
        }

scan_parsed-IsLoaded :
    (o : Option (Bytes × Bytes)) (tpl : Template)
    → Parsed o
    → IsLoaded tpl
    → IsLoaded (scan_parsed o tpl).1
unfolding scan_parsed
scan_parsed-IsLoaded none tpl p h = h
scan_parsed-IsLoaded (some (name, format)) tpl p h = go (lookup name)
  where
    go : (k : Option Known) → IsLoaded (declare k format tpl).1
    go none = unfold declare in h
    go (some found) = unfold declare in add_var-IsLoaded found format tpl h p

scanvar-IsLoaded : (tpl : Template) (line : Bytes) → IsLoaded tpl → IsLoaded (scanvar tpl line).1
unfolding scanvar parse_var
scanvar-IsLoaded tpl line h =
    let (name, rest) = span_not b'=' 49 line in
    scan_parsed-IsLoaded (behind_name name rest) tpl (behind_name-Parsed name rest) h

take_line-IsLoaded :
    (line : Bytes) (isok : Bool) (tpl : Template)
    → IsLoaded tpl
    → IsLoaded (take_line line (isok, tpl)).1
unfolding take_line
take_line-IsLoaded [] isok tpl h = h
take_line-IsLoaded (c ∷ line) isok tpl h = elim (Bool-cases (c == b'$')) [
  | inl dollar ↦ rw dollar (scanvar-IsLoaded tpl line h)
  | inr other ↦ rw other (elim (Bool-cases (c == b'>')) [
    | inl mark ↦
        rw mark (record { distinct = h.distinct; formats = h.formats; not_shown = h.not_shown })
    | inr neither ↦ rw neither h
  ])
]

take_lines-IsLoaded :
    (fuel : ℕ) (file : Bytes) (isok : Bool) (tpl : Template)
    → IsLoaded tpl
    → IsLoaded (take_lines fuel file (isok, tpl)).1
unfolding take_lines
take_lines-IsLoaded zero file isok tpl h = h
take_lines-IsLoaded (suc fuel) [] isok tpl h = h
take_lines-IsLoaded (suc fuel) (c ∷ file) isok tpl h =
    let (line, rest) = line_of 298 (c ∷ file) in
    let r = take_line (clean_string (c_str line)) (isok, tpl) in
    take_lines-IsLoaded fuel rest r.0 r.1
      (take_line-IsLoaded (clean_string (c_str line)) isok tpl h)

-- ---- the lines ----

-- the lines of a file, cleaned
unfoldable pub lines_read : ℕ → Bytes → List Bytes
lines_read zero file = []
lines_read (suc fuel) [] = []
lines_read (suc fuel) (c ∷ file) =
    let (line, rest) = line_of 298 (c ∷ file) in clean_string (c_str line) ∷ lines_read fuel rest

-- those that begin with `>`, without it
unfoldable pub marked : List Bytes → List Bytes
marked [] = []
marked ([] ∷ rest) = marked rest
marked ((c ∷ line) ∷ rest) = if c == b'>' then line ∷ marked rest else marked rest

scanvar-lines : (tpl : Template) (line : Bytes) → (scanvar tpl line).1.lines ≡ tpl.lines
unfolding scanvar
scanvar-lines tpl line = go (parse_var line)
  where
    go : (o : Option (Bytes × Bytes)) → (scan_parsed o tpl).1.lines ≡ tpl.lines
    go none = unfold scan_parsed in refl
    go (some (name, format)) = unfold scan_parsed in named (lookup name) format
      where
        named : (k : Option Known) (format : Bytes) → (declare k format tpl).1.lines ≡ tpl.lines
        named none format = unfold declare in refl
        named (some found) format =
            unfold declare add_var in added (find_var found.code tpl.vars) found format
          where
            added :
                (o : Option Var) (found : Known) (format : Bytes)
                → (add_unless o found format tpl).1.lines ≡ tpl.lines
            added none found format = refl
            added (some v) found format = refl

take_line-lines :
    (line : Bytes) (rest : List Bytes) (isok : Bool) (tpl : Template)
    → (take_line line (isok, tpl)).1.lines ++ marked rest ≡ tpl.lines ++ marked (line ∷ rest)
unfolding take_line marked
take_line-lines [] rest isok tpl = refl
take_line-lines (c ∷ line) rest isok tpl = elim (Bool-cases (c == b'$')) [
  | inl dollar ↦
      let not_mark : (c == b'>') ≡ false = ground arith in
      rw (dollar, not_mark, scanvar-lines tpl line) refl
  | inr other ↦ elim (Bool-cases (c == b'>')) [
    | inl mark ↦ rw (other, mark) (append_assoc tpl.lines (line ∷ []) (marked rest))
    | inr neither ↦ rw (other, neither) refl
  ]
]

take_lines-lines :
    (fuel : ℕ) (file : Bytes) (isok : Bool) (tpl : Template)
    → (take_lines fuel file (isok, tpl)).1.lines ≡ tpl.lines ++ marked (lines_read fuel file)
unfolding take_lines lines_read marked
take_lines-lines zero file isok tpl = sym (append-nil tpl.lines)
take_lines-lines (suc fuel) [] isok tpl = sym (append-nil tpl.lines)
take_lines-lines (suc fuel) (c ∷ file) isok tpl =
    let (raw, rest) = line_of 298 (c ∷ file) in
    let line = clean_string (c_str raw) in
    let r = take_line line (isok, tpl) in
    take_lines-lines fuel rest r.0 r.1 ∙ take_line-lines line (lines_read fuel rest) isok tpl

-- A template that cfg_open_online gives for a file, the container's status being there, declares
-- no variable twice, has a format of 1 to 49 bytes for each, has nothing to show yet, and its
-- lines are those of the file that begin with `>`, cleaned, in order and without the mark.
pub open_online-IsLoaded :
    (files : Bytes → Option Bytes) (tplname file : Bytes) (tpl : Template)
    → files tplname ≡ some file
    → open_online files true (some tplname) ≡ some tpl
    → IsLoaded tpl × (tpl.lines ≡ marked (lines_read (length file) file))
unfolding open_online open_file scan_file
open_online-IsLoaded files tplname file tpl there e =
    went (take_lines (length file) file (true, start))
      (take_lines-IsLoaded (length file) file true start
        (record { distinct = tt; formats = tt; not_shown = refl }))
      (take_lines-lines (length file) file true start) (ap (open_file true) (sym there) ∙ e)
  where
    start : Template
    start = record calloc_template { status = true }

    went :
        (r : Bool × Template)
        → IsLoaded r.1
        → r.1.lines ≡ marked (lines_read (length file) file)
        → if_ok r ≡ some tpl
        → IsLoaded tpl × (tpl.lines ≡ marked (lines_read (length file) file))
    went (true, t) h l q =
        subst (λ u. IsLoaded u × (u.lines ≡ marked (lines_read (length file) file))) (ground arith)
          (h, l)
    went (false, t) h l q = cc
