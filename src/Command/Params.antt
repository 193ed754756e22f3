-- ===== src/Command/Params.antt =====
-- The parameter string that vzexec and vzscript build: which argument lists it keeps apart.
use vzgot.Base.{
  ◌≡◌, ◌≢◌, refl, ap, ◌∙◌, false, List, [], ◌∷◌, ◌++◌, ◌==◌, if◌then◌else◌, All, append-nil,
  append_assoc, arith,
}
use vzgot.Text.{Bytes}
use vzgot.Command.{params}

-- the words of a text, each with a blank behind it; `word` is what is read of the next one
unfoldable pub words : Bytes → Bytes → List Bytes
words word [] = []
words word (c ∷ s) =
    let more = words (word ++ c ∷ []) s in
    let next = words [] s in if c == b' ' then word ∷ next else more

words-word :
    (word arg rest : Bytes)
    → All (λ c. c ≢ b' ') arg
    → words word (arg ++ b' ' ∷ rest) ≡ (word ++ arg) ∷ words [] rest
unfolding words
words-word word [] rest h = rw append-nil refl
words-word word (c ∷ arg) rest (h, hs) =
    let other : (c == b' ') ≡ false = ground arith in
    rw other (words-word (word ++ c ∷ []) arg rest hs ∙ rw (append_assoc word (c ∷ []) arg) refl)

-- Arguments without blanks can be read back from the parameter string, each as it was given, the
-- empty ones included.
pub words-params :
    (args : List Bytes) → All (All (λ c. c ≢ b' ')) args → words [] (params args) ≡ args
unfolding params words
words-params [] h = refl
words-params (arg ∷ args) (h, hs) =
    words-word [] arg (params args) h ∙ ap (◌∷◌ arg) (words-params args hs)
