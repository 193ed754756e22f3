-- ===== src/Config/Lines.antt =====
-- What gesenv reads from a file of assignments.
use vzgot.Base.{
  ℕ, zero, suc, ◌+◌, ◌≤◌, ◌<◌, ◌≡◌, ◌≢◌, refl, ap, ◌∙◌, Bool, true, false, some, List, [], ◌∷◌,
  ◌++◌, append_assoc, arith, length, length-append, All, All-append, pos,
}
use vzgot.Text.{Bytes, getstr, is_space}
use vzgot.Text.Scan.{
  span_not-hit, span_not-miss, word_of-hit, two_words-some, holds-append, skip_spaces-none, All-map,
}
use vzgot.Text.Eol.{Plain, getstr_keeps_newline}
use vzgot.Config.{
  Env, World, set_env, behind_eq, scan_line, unquote, assign, scanned, do_line, do_lines, loaded,
  read_all,
}

-- a name, a value, and whether the value is written in double quotes
pub record Assignment : Type 0 where
  pub name : Bytes
  pub value : Bytes
  pub quoted : Bool

abbrev pub written : Bool → Bytes → Bytes
written true v = b'"' ∷ v ++ b'"' ∷ []
written false v = v

abbrev pub line_of_assignment : Assignment → Bytes
line_of_assignment a = a.name ++ b'=' ∷ written a.quoted a.value

-- the text of a file with one assignment on each line
abbrev pub text : List Assignment → Bytes
text [] = []
text (a ∷ rest) = line_of_assignment a ++ b'\n' ∷ text rest

-- bytes that neither end nor cut a line
abbrev pub Kept : ℕ → Type 0
Kept c = (c ≢ 0) × (c ≢ b'\n') × (c ≢ b'#')

abbrev pub InName : ℕ → Type 0
InName c = Kept c × (c ≢ b'=')

abbrev pub InValue : ℕ → Type 0
InValue c = Kept c × (is_space c ≡ false) × (c ≢ b'"')

-- what a name and a value have to be for the buffers and the two formats
pub record IsGood (a : Assignment) : Type 0 where
  pub named : 0 < length a.name
  pub name_fits : length a.name ≤ 100
  pub in_name : All InName a.name
  pub valued : 0 < length (written a.quoted a.value)
  pub value_fits : length (written a.quoted a.value) ≤ 199
  pub in_value : All InValue a.value

newline-space : is_space b'\n' ≡ true
newline-space = unfold is_space in refl

-- the value as it is written has no white space
written-solid : (q : Bool) (v : Bytes) → All InValue v → All (λ x. is_space x ≡ false) (written q v)
written-solid true v h = (
  unfold is_space in refl,
  All-append (λ x. is_space x ≡ false) v (b'"' ∷ []) (All-map v (λ x p. p.1) h)
      (unfold is_space in refl, tt),
)
written-solid false v h = All-map v (λ x p. p.1) h

unquote-written : (q : Bool) (v : Bytes) → All InValue v → unquote (written q v) ≡ v
unfolding unquote
unquote-written true v h =
    rw
      (span_not-hit b'"' (length (v ++ b'"' ∷ [])) v [] (All-map v (λ x p. p.2) h)
        (omega (arith, length-append v (b'"' ∷ []))))
      refl
unquote-written false [] h = refl
unquote-written false (c ∷ v) h = ground arith

-- the line that the loop reads, with its line feed
abbrev read_line : Assignment → Bytes
read_line a = line_of_assignment a ++ b'\n' ∷ []

behind_eq-word :
    (name raw rest : Bytes) (c : ℕ)
    → is_space c ≡ true
    → All (λ x. is_space x ≡ false) raw
    → 0 < length name
    → 0 < length raw
    → length raw ≤ 199
    → behind_eq name (b'=' ∷ (raw ++ c ∷ rest)) ≡ some (name, raw)
unfolding behind_eq
behind_eq-word name [] rest c end all hn hr h = absurd (omega arith)
behind_eq-word name (x ∷ raw) rest c end all hn hr h =
    rw (skip_spaces-none x (raw ++ c ∷ rest) all.0, word_of-hit 199 c (x ∷ raw) rest end all h)
      (two_words-some name (x ∷ raw) hn hr)

-- the two formats on a name, `=`, bytes without white space, and white space
scan_line-word :
    (name raw rest : Bytes) (c : ℕ)
    → is_space c ≡ true
    → All InName name
    → 0 < length name
    → length name ≤ 100
    → All (λ x. is_space x ≡ false) raw
    → 0 < length raw
    → length raw ≤ 199
    → scan_line (name ++ b'=' ∷ (raw ++ c ∷ rest)) ≡ some (name, raw)
unfolding scan_line
scan_line-word name raw rest c end hn h0 h1 hr h2 h3 =
    rw (span_not-hit b'=' 100 name (raw ++ c ∷ rest) (All-map name (λ x p. p.1) hn) h1)
      (behind_eq-word name raw rest c end hr h0 h2 h3)

scan_line-good :
    (a : Assignment) → IsGood a → scan_line (read_line a) ≡ some (a.name, written a.quoted a.value)
scan_line-good a g = rw (append_assoc a.name (b'=' ∷ written a.quoted a.value) (b'\n' ∷ [])) (
    scan_line-word a.name (written a.quoted a.value) [] b'\n' newline-space g.in_name g.named
      g.name_fits (written-solid a.quoted a.value g.in_value) g.valued g.value_fits)

line-Plain : (a : Assignment) → IsGood a → Plain b'#' (line_of_assignment a)
line-Plain a g =
    All-append _ a.name _ (All-map a.name (λ x p. p.0) g.in_name)
      ((omega arith, omega arith, omega arith), raw a.quoted)
  where
    raw : (q : Bool) → Plain b'#' (written q a.value)
    raw true = (
      (omega arith, omega arith, omega arith),
      All-append _ a.value _ (All-map a.value (λ x p. p.0) g.in_value)
          ((omega arith, omega arith, omega arith), tt),
    )
    raw false = All-map a.value (λ x p. p.0) g.in_value

line-fits : (a : Assignment) → IsGood a → length (line_of_assignment a) + 1 < 1000
line-fits a g =
    omega (arith, length-append a.name (b'=' ∷ written a.quoted a.value), g.name_fits, g.value_fits)

-- the variables set one after the other
unfoldable pub set_all : List Assignment → Env → Env
set_all [] env = env
set_all (a ∷ rest) env = set_all rest (set_env a.name a.value env)

module _ (w : World) (takes : (name value : Bytes) (env : Env) → w.sets name value env ≡ true) where
  do_line-good :
      (a : Assignment) (env : Env)
      → IsGood a
      → do_line w true (read_line a) env ≡ set_env a.name a.value env
  unfolding do_line scanned assign
  do_line-good a env g =
      rw
        (
          scan_line-good a g,
          append_assoc a.name (b'=' ∷ written a.quoted a.value) (b'\n' ∷ []),
          holds-append b'=' a.name (written a.quoted a.value ++ b'\n' ∷ []),
          unquote-written a.quoted a.value g.in_value,
          takes,
        )
        (ground (arith, length-append a.name (b'=' ∷ (written a.quoted a.value ++ b'\n' ∷ []))))

  -- A value in double quotes is cut at its first white space: behind `NAME="word more"` the
  -- variable has the value `word`, whatever follows.
  pub do_line_cut :
      (name word more : Bytes) (c : ℕ) (env : Env)
      → All InName name
      → 0 < length name
      → length name ≤ 100
      → All InValue word
      → length word ≤ 198
      → is_space c ≡ true
      → do_line w true (name ++ b'=' ∷ (b'"' ∷ (word ++ c ∷ more))) env ≡ set_env name word env
  unfolding do_line scanned assign unquote
  do_line_cut name word more c env hn h0 h1 hw h2 end =
      rw
        (
          scan_line-word name (b'"' ∷ word) more c end hn h0 h1
              (unfold is_space in refl, All-map word (λ x p. p.1) hw) (omega arith) (omega arith),
          holds-append b'=' name (b'"' ∷ (word ++ c ∷ more)),
          takes,
          span_not-miss b'"' word (All-map word (λ x p. p.2) hw),
        )
        (ground (arith, length-append name (b'=' ∷ (b'"' ∷ (word ++ c ∷ more)))))

  do_lines_step :
      (fuel : ℕ) (file line rest : Bytes) (env env' : Env)
      → getstr 1000 b'#' file ≡ some (line, rest)
      → do_line w true line env ≡ env'
      → do_lines w true (suc fuel) file env ≡ do_lines w true fuel rest env'
  unfolding do_lines
  do_lines_step fuel file line rest env env' e d = rw (do_lines, e, d) refl

  do_lines-text :
      (es : List Assignment) (fuel : ℕ) (env : Env)
      → All IsGood es
      → length (text es) < fuel
      → do_lines w true fuel (text es) env ≡ some (set_all es env)
  unfolding do_lines set_all
  do_lines-text es zero env g h = absurd (omega arith)
  do_lines-text [] (suc fuel) env g h = unfold getstr in refl
  do_lines-text (a ∷ es) (suc fuel) env g h =
      do_lines_step fuel (text (a ∷ es)) (read_line a) (text es) env (set_env a.name a.value env)
        (getstr_keeps_newline 1000 b'#' (line_of_assignment a) (text es) (omega arith)
          (line-Plain a g.0) (line-fits a g.0))
        (do_line-good a env g.0)
      ∙ do_lines-text es fuel (set_env a.name a.value env) g.1
          (omega (arith, length-append (line_of_assignment a) (b'\n' ∷ text es)))

  pub read_all-text :
      (es : List Assignment) (env : Env)
      → All IsGood es
      → read_all w true (some (text es)) env ≡ some (pos 0, set_all es env)
  unfolding read_all
  read_all-text es env g =
      ap (loaded w) (do_lines-text es (suc (length (text es))) env g (omega arith))
