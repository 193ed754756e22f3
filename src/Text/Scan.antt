-- ===== src/Text/Scan.antt =====
-- The conversions of `sscanf` that the programs use, and `strchr`.
use vzgot.Base.{
  ℕ, zero, suc, ◌≤◌, ◌<◌, ◌≡◌, ◌≢◌, refl, sym, ap, subst, ◌∙◌, Bool, true, false, Option, none,
  some, [], ◌∷◌, ◌++◌, arith, ◌==◌, if◌then◌else◌, length, All,
}
use vzgot.Text.{Bytes, is_space, same, skip_spaces}

-- `strchr(line,c)!=NULL`
unfoldable pub holds : ℕ → Bytes → Bool
holds c [] = false
holds c (x ∷ s) = if x == c then true else holds c s

-- `%n[^c]`: at most `n` bytes up to the first `c`, and what is left
unfoldable pub span_not : ℕ → ℕ → Bytes → Bytes × Bytes
span_not c zero s = ([], s)
span_not c (suc n) [] = ([], [])
span_not c (suc n) (x ∷ s) =
    let (word, rest) = span_not c n s in if x == c then ([], x ∷ s) else (x ∷ word, rest)

-- `%ns` behind the white space: at most `n` bytes up to the next white space
unfoldable pub word_of : ℕ → Bytes → Bytes
word_of zero s = []
word_of (suc n) [] = []
word_of (suc n) (x ∷ s) = if is_space x then [] else x ∷ word_of n s

-- a conversion that gives no byte does not count
unfoldable pub two_words : Bytes → Bytes → Option (Bytes × Bytes)
two_words var [] = none
two_words [] contents = none
two_words (c ∷ var) (d ∷ contents) = some (c ∷ var, d ∷ contents)

pub span_not-hit :
    (c k : ℕ) (s rest : Bytes)
    → All (λ x. x ≢ c) s
    → length s ≤ k
    → span_not c k (s ++ c ∷ rest) ≡ (s, c ∷ rest)
unfolding span_not
span_not-hit c zero [] rest all h = refl
span_not-hit c (suc k) [] rest all h = ground arith
span_not-hit c zero (x ∷ s) rest all h = absurd (omega arith)
span_not-hit c (suc k) (x ∷ s) rest all h =
    ground (arith, span_not-hit c k s rest all.1 (omega arith))

pub span_not-miss : (c : ℕ) (s : Bytes) → All (λ x. x ≢ c) s → span_not c (length s) s ≡ (s, [])
unfolding span_not
span_not-miss c [] all = refl
span_not-miss c (x ∷ s) all = ground (arith, span_not-miss c s all.1)

-- the word ends at the first white space
pub word_of-hit :
    (k c : ℕ) (s rest : Bytes)
    → is_space c ≡ true
    → All (λ x. is_space x ≡ false) s
    → length s ≤ k
    → word_of k (s ++ c ∷ rest) ≡ s
unfolding word_of
word_of-hit zero c [] rest end all h = refl
word_of-hit (suc k) c [] rest end all h = rw end refl
word_of-hit zero c (x ∷ s) rest end all h = absurd (omega arith)
word_of-hit (suc k) c (x ∷ s) rest end all h =
    rw all.0 (ap (λ z. x ∷ z) (word_of-hit k c s rest end all.1 (omega arith)))

pub skip_spaces-none : (x : ℕ) (s : Bytes) → is_space x ≡ false → skip_spaces (x ∷ s) ≡ x ∷ s
unfolding skip_spaces
skip_spaces-none x s h = rw h

pub All-map : {P Q : ℕ → Type 0} (s : Bytes) → ((x : ℕ) → P x → Q x) → All P s → All Q s
All-map [] f h = tt
All-map (x ∷ s) f h = (f x h.0, All-map s f h.1)

pub holds-append : (c : ℕ) (s rest : Bytes) → holds c (s ++ c ∷ rest) ≡ true
unfolding holds
holds-append c [] rest = ground arith
holds-append c (x ∷ s) rest = ground (arith, holds-append c s rest)

pub two_words-some : (s t : Bytes) → 0 < length s → 0 < length t → two_words s t ≡ some (s, t)
unfolding two_words
two_words-some [] t h k = absurd (omega arith)
two_words-some (c ∷ s) [] h k = absurd (omega arith)
two_words-some (c ∷ s) (d ∷ t) h k = refl

pub same_refl : (s : Bytes) → same s s ≡ true
unfolding same
same_refl [] = refl
same_refl (c ∷ s) = ground (arith, same_refl s)

pub same-eq : (s t : Bytes) → same s t ≡ true → s ≡ t
unfolding same
same-eq [] [] h = refl
same-eq [] (d ∷ t) h = cc
same-eq (c ∷ s) [] h = cc
same-eq (c ∷ s) (d ∷ t) h = ground (arith, same-eq s t)

pub same_trans : (n k name : Bytes) → same n k ≡ true → same name k ≡ true → same n name ≡ true
same_trans n k name f g =
    subst (λ z. same n z ≡ true) (same-eq n k f ∙ sym (same-eq name k g)) (same_refl n)

pub same_comm : (s t : Bytes) → same s t ≡ same t s
unfolding same
same_comm [] [] = refl
same_comm [] (d ∷ t) = refl
same_comm (c ∷ s) [] = refl
same_comm (c ∷ s) (d ∷ t) = ground (arith, same_comm s t)
