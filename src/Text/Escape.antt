-- ===== src/Text/Escape.antt =====
-- apl_getstr and the comment mark: a text whose marks are escaped is read back.
use vzgot.Base.{
  ℕ, ◌≡◌, ◌≢◌, refl, ◌∙◌, Bool, true, false, none, [], ◌∷◌, ◌++◌, arith, ◌==◌, if◌then◌else◌,
  Bool-cases, inl, inr, ==_iff,
}
use mathlib.Core.List.{reverse_aux}
use vzgot.Text.{Bytes, cut_comment, unescape?, starts_with, edit_line}
use vzgot.Text.Eol.{cut_eol_none, cut_comment-keep, cut_comment-nil}

-- the text as a configuration file has to write it: `\` in front of each comment mark
abbrev pub escape : ℕ → Bytes → Bytes
escape carcom [] = []
escape carcom (c ∷ s) = (if c == carcom then b'\\' ∷ c ∷ [] else c ∷ []) ++ escape carcom s

cut_comment-escaped :
    (carcom : ℕ) (skip : Bool) (out : Bytes) (s : Bytes)
    → cut_comment carcom false (b'\\' ∷ out) (carcom ∷ s) ≡ cut_comment carcom true (carcom ∷ out) s
unfolding cut_comment unescape?
cut_comment-escaped carcom skip out s = ground arith

-- with an unescaped mark the line ends there
cut_comment-mark :
    (carcom : ℕ) (out rest : Bytes)
    → unescape? out ≡ none
    → cut_comment carcom false out (carcom ∷ rest) ≡ reverse_aux out []
unfolding cut_comment
cut_comment-mark carcom out rest h = ground arith

cut_comment-escape :
    (carcom : ℕ) (skip : Bool) (out s : Bytes)
    → carcom ≢ b'\\'
    → cut_comment carcom skip out (escape carcom s) ≡ reverse_aux out s
cut_comment-escape carcom skip out [] ne = cut_comment-nil carcom skip out
cut_comment-escape carcom skip out (c ∷ s) ne = elim (Bool-cases (c == carcom)) [
  | inl hit ↦
      rw (hit, (==_iff c carcom).0 hit)
        (cut_comment-keep carcom skip out b'\\' _ (ground arith)
          ∙ cut_comment-escaped carcom skip out _
          ∙ cut_comment-escape carcom true (carcom ∷ out) s ne)
  | inr miss ↦ rw miss (
      cut_comment-keep carcom skip out c _ (ground arith)
      ∙ cut_comment-escape carcom false (c ∷ out) s ne)
]

starts_with-escape :
    (carcom : ℕ) (s : Bytes) → carcom ≢ b'\\' → starts_with carcom (escape carcom s) ≡ false
unfolding starts_with
starts_with-escape carcom [] ne = refl
starts_with-escape carcom (c ∷ s) ne = ground arith

-- For every comment mark but NUL and the backslash, apl_getstr turns a line in which each mark
-- is written with a backslash before it back into the text meant.
pub edit_line-escape :
    (carcom : ℕ) (s : Bytes) → carcom ≢ 0 → carcom ≢ b'\\' → edit_line carcom (escape carcom s) ≡ s
unfolding edit_line
edit_line-escape carcom s nz ne =
    ground (
      arith,
      starts_with-escape carcom s ne,
      cut_comment-escape carcom false [] s ne,
      cut_eol_none s,
    )
