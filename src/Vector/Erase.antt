-- ===== src/Vector/Erase.antt =====
-- vec_rmlstlst and vec_freelstlst on a NULL-terminated array.
use vzgot.Base.{
  ℕ, ◌≡◌, refl, Bool, true, false, ◌||◌, Option, none, some, List, [], ◌∷◌, ◌++◌, arith, ◌==◌,
  if◌then◌else◌, Bool-cases, inl, inr,
}
use vzgot.Vector.{Block, shift, remove_cell, remove, handed, free_all}
use vzgot.Vector.Array.{Payloads, IsArray}

-- the list without the first `p`
abbrev pub erase : ℕ → List ℕ → List ℕ
erase p [] = []
erase p (x ∷ xs) = if x == p then xs else x ∷ erase p xs

abbrev pub contains : ℕ → List ℕ → Bool
contains p [] = false
contains p (x ∷ xs) = x == p || contains p xs

shift-append :
    (x : ℕ) (xs slack : List ℕ)
    → Payloads (x ∷ xs)
    → shift (x ∷ (xs ++ 0 ∷ slack)) ≡ some (xs ++ 0 ∷ 0 ∷ slack)
unfolding shift
shift-append x [] [] h = ground arith
shift-append x [] (s ∷ slack) h = ground arith
shift-append x (y ∷ xs) slack h = ground (arith, shift-append y xs slack h.1)

Payloads-erase : (p : ℕ) (xs : List ℕ) → Payloads xs → Payloads (erase p xs)
Payloads-erase p [] h = tt
Payloads-erase p (x ∷ xs) h = elim (Bool-cases (x == p)) [
  | inl hit ↦ rw hit h.1
  | inr miss ↦ rw miss (h.0, Payloads-erase p xs h.1)
]

remove-append :
    (p : ℕ) (xs slack : List ℕ)
    → Payloads xs
    → (left : Block) × (remove_cell p (xs ++ 0 ∷ slack)
        ≡ some (contains p xs, erase p xs ++ 0 ∷ left))
unfolding remove_cell
remove-append p [] slack h = (slack, refl)
remove-append p (x ∷ xs) slack h =
    let (left, e) = remove-append p xs slack h.1 in
    elim (Bool-cases (x == p)) [
      | inl hit ↦ (0 ∷ slack, ground (arith, shift-append x xs slack h))
      | inr miss ↦ (left, ground (arith, e))
    ]

-- vec_rmlstlst takes out the first cell that holds the payload, closes the gap, keeps the rest in
-- order, and says whether there was one.
pub remove-erase :
    (p : ℕ) (xs : List ℕ) (lptr : Option Block)
    → IsArray xs lptr
    → (r : Option Block) × (remove p lptr ≡ some (contains p xs, r)) × IsArray (erase p xs) r
unfolding remove
remove-erase p xs none h = (none, rw h, rw h)
remove-erase p xs (some b) h =
    let (left, e) = remove-append p xs h.slack h.payloads in
    (
      some (erase p xs ++ 0 ∷ left),
      rw (h.layout, e),
      record { slack = left; layout = refl; payloads = Payloads-erase p xs h.payloads },
    )

handed-append : (xs slack : List ℕ) → Payloads xs → handed (xs ++ 0 ∷ slack) ≡ some xs
unfolding handed
handed-append [] slack h = refl
handed-append (x ∷ xs) slack h = ground (arith, handed-append xs slack h.1)

-- On an array, and with a function to free with, vec_freelstlst returns NULL and frees each
-- payload of the array once, in order.
pub free_all-payloads :
    (xs : List ℕ) (lptr : Option Block) → IsArray xs lptr → free_all true lptr ≡ some (none, xs)
unfolding free_all
free_all-payloads xs none h = rw h
free_all-payloads xs (some b) h = rw (h.layout, handed-append xs h.slack h.payloads)
