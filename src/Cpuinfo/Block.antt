-- ===== src/Cpuinfo/Block.antt =====
-- The description of one processor.
use vzgot.Base.{
  ℕ, zero, suc, ◌%◌, ◌<◌, ◌≡◌, ◌≢◌, refl, ap, ◌∙◌, some, List, [], ◌∷◌, ◌++◌, length, length-append,
  All, arith,
}
use vzgot.Text.{Bytes, c_str, clean_string, skip_blanks, cut_tail}
use vzgot.Pid.File.{line_of-line}
use vzgot.Cpuinfo.{
  find_action, markers, split_colon, show_line, Copied, with_line, on_line, on_clean, duplicate,
}

-- a line, cut at its colon
pub record Entry : Type 0 where
  pub key : Bytes
  pub value : Bytes

abbrev pub line : Entry → Bytes
line e = e.key ++ b':' ∷ e.value

-- A line that fits duplicate's buffer, with nothing to clean; skipcpuinfo reads it in pieces of 198
-- bytes and takes a line feed that stands alone for the empty line.
pub record IsEntry (e : Entry) : Type 0 where
  pub named : 0 < length e.key
  pub key_plain : All (λ c. (c ≢ b'\n') × (c ≢ b':')) e.key
  pub value_plain : All (λ c. c ≢ b'\n') e.value
  pub fits : length (line e) < 898
  pub uneven : length (line e) % 198 ≢ 0
  pub clean : clean_string (c_str (line e ++ b'\n' ∷ [])) ≡ line e

-- the text of a description: its lines, and an empty one
abbrev pub text : List Entry → Bytes → Bytes
text [] rest = b'\n' ∷ rest
text (e ∷ es) rest = line e ++ b'\n' ∷ text es rest

-- what the container is to see of it
unfoldable pub shown : ℕ → ℕ → List Entry → Bytes
shown selected numcpu [] = b'\n' ∷ []
shown selected numcpu (e ∷ es) =
    show_line selected numcpu (find_action markers (line e)) e.key e.value
    ++ shown selected numcpu es

split_colon-line :
    (key value : Bytes)
    → All (λ c. (c ≢ b'\n') × (c ≢ b':')) key
    → split_colon (key ++ b':' ∷ value) ≡ some (key, value)
unfolding split_colon
split_colon-line [] value h = refl
split_colon-line (c ∷ key) value h = ground (arith, split_colon-line key value h.1)

pub All-key :
    (s : Bytes)
    → All (λ c. (c ≢ b'\n') × (c ≢ b':')) s
    → (v : Bytes) → All (λ c. c ≢ b'\n') v
    → All (λ c. c ≢ b'\n') (s ++ b':' ∷ v)
All-key [] h v k = (omega arith, k)
All-key (c ∷ s) h v k = (h.0.0, All-key s h.1 v k)

clean_newline : clean_string (c_str (b'\n' ∷ [])) ≡ []
unfolding clean_string c_str skip_blanks cut_tail
clean_newline = refl

module _ (selected numcpu : ℕ) where
  on_clean-join :
      (key value : Bytes) (later : Copied) (rest : Bytes)
      → 0 < length key
      → All (λ c. (c ≢ b'\n') × (c ≢ b':')) key
      → on_clean selected numcpu (key ++ b':' ∷ value) later rest
        ≡ with_line
            (show_line selected numcpu (find_action markers (key ++ b':' ∷ value)) key value)
            later
  unfolding on_clean on_line
  on_clean-join [] value later rest named plain = absurd (omega arith)
  on_clean-join (c ∷ key) value later rest named plain =
      ap (λ o. on_line selected numcpu o (c ∷ key ++ b':' ∷ value) later rest)
        (split_colon-line (c ∷ key) value plain)

  duplicate_line :
      (fuel : ℕ) (s rest : Bytes)
      → All (λ c. c ≢ b'\n') s
      → length s < 898
      → duplicate selected numcpu (suc fuel) (s ++ b'\n' ∷ rest)
        ≡ on_clean selected numcpu
            (clean_string (c_str (s ++ b'\n' ∷ [])))
            (duplicate selected numcpu fuel rest)
            rest
  unfolding duplicate
  duplicate_line fuel [] rest h lt =
      ap
        (λ r.
          on_clean selected numcpu (clean_string (c_str r.0)) (duplicate selected numcpu fuel r.1)
            r.1)
        (line_of-line 898 [] rest h lt)
  duplicate_line fuel (c ∷ s) rest h lt =
      ap
        (λ r.
          on_clean selected numcpu (clean_string (c_str r.0)) (duplicate selected numcpu fuel r.1)
            r.1)
        (line_of-line 898 (c ∷ s) rest h lt)

  duplicate_step :
      (fuel : ℕ) (e : Entry) (rest : Bytes)
      → IsEntry e
      → duplicate selected numcpu (suc fuel) (line e ++ b'\n' ∷ rest)
        ≡ with_line
            (show_line selected numcpu (find_action markers (line e)) e.key e.value)
            (duplicate selected numcpu fuel rest)
  duplicate_step fuel e rest h =
      duplicate_line fuel (line e) rest (All-key e.key h.key_plain e.value h.value_plain)
        (omega (arith, h.fits))
      ∙ ap (λ z. on_clean selected numcpu z (duplicate selected numcpu fuel rest) rest) h.clean
      ∙ on_clean-join e.key e.value (duplicate selected numcpu fuel rest) rest h.named h.key_plain

  duplicate-end :
      (fuel : ℕ) (rest : Bytes)
      → duplicate selected numcpu (suc fuel) (b'\n' ∷ rest) ≡ (b'\n' ∷ [], rest)
  duplicate-end fuel rest =
      duplicate_line fuel [] rest tt (omega arith)
      ∙ ap (λ z. on_clean selected numcpu z (duplicate selected numcpu fuel rest) rest)
          clean_newline
      ∙ (unfold on_clean in refl)

  -- duplicate reads one description, whatever follows it, and writes what is to be shown of it.
  pub duplicate-text :
      (es : List Entry) (fuel : ℕ) (rest : Bytes)
      → All IsEntry es
      → length es < fuel
      → duplicate selected numcpu fuel (text es rest) ≡ (shown selected numcpu es, rest)
  unfolding shown
  duplicate-text es zero rest h lt = absurd (omega arith)
  duplicate-text [] (suc fuel) rest h lt = duplicate-end fuel rest
  duplicate-text (e ∷ es) (suc fuel) rest h lt =
      duplicate_step fuel e (text es rest) h.0
      ∙ ap (with_line (show_line selected numcpu (find_action markers (line e)) e.key e.value))
          (duplicate-text es fuel rest h.1 (omega arith))

pub length-text : (es : List Entry) (rest : Bytes) → length es < length (text es rest)
length-text [] rest = omega arith
length-text (e ∷ es) rest =
    omega (arith, length-append (line e) (b'\n' ∷ text es rest), length-text es rest)
