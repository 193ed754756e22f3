-- ===== src/Text/Eol.antt =====
-- apl_getstr and the end of the line.
use vzgot.Base.{
  ℕ, zero, suc, ◌+◌, ◌-◌, ◌<◌, ◌≡◌, refl, ◌∙◌, Bool, false, none, some, [], ◌∷◌, ◌++◌, arith, ◌==◌,
  length, get_elem?, All, not, ◌&&◌, ◌≢◌,
}
use mathlib.Core.List.{reverse_aux}
use vzgot.Text.{Bytes, line_of, c_str, cut_comment, cut_eol, starts_with, edit_line, getstr}

get-end : (s : Bytes) → get_elem? s (length s) ≡ none
get-end [] = refl
get-end (c ∷ s) = get-end s

-- The loop that is to cut line ends starts on the NUL, so it never cuts one.
pub cut_eol_none : (s : Bytes) → cut_eol (length s) (length s) s ≡ s
unfolding cut_eol
cut_eol_none [] = refl
cut_eol_none (c ∷ s) = ground (arith, get-end s)

-- bytes of a text line, none of which is the comment mark
abbrev pub Plain : ℕ → Bytes → Type 0
Plain carcom = All (λ c. (c ≢ 0) × (c ≢ b'\n') × (c ≢ carcom))

line_of-Plain :
    (n carcom : ℕ) (line rest : Bytes)
    → Plain carcom line
    → length line < n
    → line_of n (line ++ b'\n' ∷ rest) ≡ (line ++ b'\n' ∷ [], rest)
unfolding line_of
line_of-Plain zero carcom line rest p h = absurd (omega arith)
line_of-Plain (suc n) carcom [] rest p h = refl
line_of-Plain (suc n) carcom (c ∷ line) rest p h =
    ground (arith, line_of-Plain n carcom line rest p.1 (omega arith))

c_str-Plain :
    (carcom : ℕ) (line : Bytes)
    → Plain carcom line
    → c_str (line ++ b'\n' ∷ []) ≡ line ++ b'\n' ∷ []
unfolding c_str
c_str-Plain carcom [] p = refl
c_str-Plain carcom (c ∷ line) p = ground (arith, c_str-Plain carcom line p.1)

-- a byte that is not the mark is kept
pub cut_comment-keep :
    (carcom : ℕ) (skip : Bool) (out : Bytes) (c : ℕ) (s : Bytes)
    → (not skip && c == carcom) ≡ false
    → cut_comment carcom skip out (c ∷ s) ≡ cut_comment carcom false (c ∷ out) s
unfolding cut_comment
cut_comment-keep carcom skip out c s h = rw (h, cut_comment)

pub cut_comment-nil :
    (carcom : ℕ) (skip : Bool) (out : Bytes) → cut_comment carcom skip out [] ≡ reverse_aux out []
unfolding cut_comment
cut_comment-nil carcom skip out = refl

cut_comment-Plain :
    (carcom : ℕ) (out line : Bytes)
    → b'\n' ≢ carcom
    → Plain carcom line
    → cut_comment carcom false out (line ++ b'\n' ∷ []) ≡ reverse_aux out (line ++ b'\n' ∷ [])
cut_comment-Plain carcom out [] ne p =
    cut_comment-keep carcom false out b'\n' [] (ground arith) ∙ cut_comment-nil _ _ _
cut_comment-Plain carcom out (c ∷ line) ne p =
    cut_comment-keep carcom false out c _ (ground arith)
    ∙ cut_comment-Plain carcom (c ∷ out) line ne p.1

edit_line-Plain :
    (carcom : ℕ) (line : Bytes)
    → b'\n' ≢ carcom
    → Plain carcom line
    → edit_line carcom (line ++ b'\n' ∷ []) ≡ line ++ b'\n' ∷ []
unfolding edit_line starts_with
edit_line-Plain carcom [] ne p =
    ground (arith, cut_comment-Plain carcom [] [] ne p, cut_eol_none (b'\n' ∷ []))
edit_line-Plain carcom (c ∷ line) ne p =
    ground
      (arith, cut_comment-Plain carcom [] (c ∷ line) ne p, cut_eol_none (c ∷ (line ++ b'\n' ∷ [])))

-- A line of the file that fits the buffer and holds no comment mark is returned with its line
-- feed still at the end, whatever the comment mark but the line feed itself, and the file goes
-- on behind it.
pub getstr_keeps_newline :
    (taille carcom : ℕ) (line rest : Bytes)
    → b'\n' ≢ carcom
    → Plain carcom line
    → length line + 1 < taille
    → getstr taille carcom (line ++ b'\n' ∷ rest) ≡ some (line ++ b'\n' ∷ [], rest)
unfolding getstr
getstr_keeps_newline taille carcom [] rest ne p h = rw (
  line_of-Plain (taille - 1) carcom [] rest p (omega arith),
  c_str-Plain carcom [] p,
  edit_line-Plain carcom [] ne p,
)
getstr_keeps_newline taille carcom (c ∷ line) rest ne p h = rw (
  line_of-Plain (taille - 1) carcom (c ∷ line) rest p (omega arith),
  c_str-Plain carcom (c ∷ line) p,
  edit_line-Plain carcom (c ∷ line) ne p,
)
