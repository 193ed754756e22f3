-- ===== src/Console/Log.antt =====
-- What pty_tracker leaves in the log.
use vzgot.Base.{
  ℕ, zero, suc, ◌≡◌, refl, ap, ap₂, ◌∙◌, true, Option, none, some, List, [], ◌∷◌, ◌++◌, take,
  length,
}
use vzgot.Text.{Bytes}
use vzgot.Console.{written, copy_chunks, pty_tracker}

abbrev pub concat : List Bytes → Bytes
concat [] = []
concat (c ∷ chunks) = c ++ concat chunks

-- the first `k` writes take their whole chunk, and the next one, if there is a chunk, fails
abbrev pub Fails : (ℕ → Option ℕ) → ℕ → ℕ → List Bytes → Type 0
Fails writes i zero [] = Unit
Fails writes i zero (c ∷ chunks) = writes i ≡ none
Fails writes i (suc k) [] = ⊥
Fails writes i (suc k) (c ∷ chunks) = (writes i ≡ some (length c)) × Fails writes (suc i) k chunks

take_whole : (s : Bytes) → take (length s) s ≡ s
take_whole [] = refl
take_whole (c ∷ s) = ap (λ r. c ∷ r) (take_whole s)

copy_chunks-Fails :
    (writes : ℕ → Option ℕ) (i k : ℕ) (chunks : List Bytes)
    → Fails writes i k chunks
    → copy_chunks writes i chunks ≡ concat (take k chunks)
unfolding copy_chunks
copy_chunks-Fails writes i zero [] h = refl
copy_chunks-Fails writes i zero (c ∷ chunks) h =
    ap (λ o. written o c (copy_chunks writes (suc i) chunks)) h
copy_chunks-Fails writes i (suc k) [] h = absurd h
copy_chunks-Fails writes i (suc k) (c ∷ chunks) h =
    ap (λ o. written o c (copy_chunks writes (suc i) chunks)) h.0
    ∙ ap₂ (λ x y. x ++ y) (take_whole c) (copy_chunks-Fails writes (suc i) k chunks h.1)

-- When the first `k` writes of the console's logger take all of what was read, and then a write
-- fails or the console is at its end, the log holds exactly the first `k` chunks, in order.
pub pty_tracker-Fails :
    (writes : ℕ → Option ℕ) (k : ℕ) (chunks : List Bytes)
    → Fails writes 0 k chunks
    → pty_tracker true writes chunks ≡ some (concat (take k chunks))
unfolding pty_tracker
pty_tracker-Fails writes k chunks h = ap some (copy_chunks-Fails writes 0 k chunks h)
