-- ===== src/Vector/Array.antt =====
-- A NULL-terminated array is the list of its payloads: each operation against that view.
use vzgot.Base.{
  ℕ, zero, suc, ◌+◌, ◌≡◌, ◌≢◌, refl, sym, ap, ◌∙◌, Option, none, some, List, [], ◌∷◌, ◌++◌, arith,
  length, All, append_assoc, append-nil, length-append, All-append,
}
use vzgot.Vector.{Block, realloc, store, count_cells, size, add, copy_at, read, merge}
use native.Mathlib.Nat.{zero-add, suc-add, add_assoc}
use native.Mathlib.Numerals.{add-one}

abbrev pub Payloads : List ℕ → Type 0
Payloads = All (λ p. p ≢ 0)

-- the block holds the payloads, the NULL behind them, and any cells behind that
pub record Holds (xs : List ℕ) (b : Block) : Type 0 where
  pub slack : Block
  pub layout : b ≡ xs ++ 0 ∷ slack
  pub payloads : Payloads xs

-- an array as the code passes it: NULL is the empty one
abbrev pub IsArray : List ℕ → Option Block → Type 0
IsArray xs none = xs ≡ []
IsArray xs (some b) = Holds xs b

count-append : (xs slack : List ℕ) → Payloads xs → count_cells (xs ++ 0 ∷ slack) ≡ some (length xs)
unfolding count_cells
count-append [] slack h = refl
count-append (x ∷ xs) slack h = ground (arith, count-append xs slack h.1)

realloc-append :
    (junk n : ℕ) (xs b : List ℕ) → realloc junk (length xs + n) (xs ++ b) ≡ xs ++ realloc junk n b
unfolding realloc
realloc-append junk n [] b = rw zero-add
realloc-append junk n (x ∷ xs) b = rw suc-add (ap (◌∷◌ x) (realloc-append junk n xs b))

store-append :
    (xs : List ℕ) (c v : ℕ) (b : List ℕ) → store (length xs) v (xs ++ c ∷ b) ≡ some (xs ++ v ∷ b)
unfolding store
store-append [] c v b = refl
store-append (x ∷ xs) c v b = rw (store-append xs c v b)

store-next :
    (xs : List ℕ) (p c v : ℕ) (b : List ℕ)
    → store (length xs + 1) v (xs ++ p ∷ c ∷ b) ≡ some (xs ++ p ∷ v ∷ b)
unfolding store
store-next [] p c v b = refl
store-next (x ∷ xs) p c v b = rw suc-add (rw (store-next xs p c v b))

Holds-size : {xs : List ℕ} {b : Block} → Holds xs b → count_cells b ≡ some (length xs)
Holds-size {xs} h = rw h.layout (count-append xs h.slack h.payloads)

-- vec_sizelstlst counts the payloads of an array before its NULL, and none for the array NULL.
pub size-length :
    (xs : List ℕ) (lptr : Option Block) → IsArray xs lptr → size lptr ≡ some (length xs)
unfolding size
size-length xs none h = rw h
size-length xs (some b) h = Holds-size h

-- what `realloc` makes of an array when it grows by `n` payloads
realloc-Holds :
    (junk n : ℕ) {xs : List ℕ} {b : Block}
    → Holds xs b
    → (slack : Block) × (realloc junk (length xs + (n + 1)) b ≡ xs ++ 0 ∷ realloc junk n slack)
realloc-Holds junk n {xs} h = (
  h.slack,
  rw h.layout (realloc-append junk (n + 1) xs (0 ∷ h.slack) ∙ rw add-one (unfold realloc in refl)),
)

realloc-one : (junk : ℕ) (b : Block) → (c : ℕ) × (realloc junk 1 b ≡ c ∷ [])
unfolding realloc
realloc-one junk [] = (junk, refl)
realloc-one junk (c ∷ b) = (c, refl)

snoc-Holds :
    (xs : List ℕ) (p : ℕ) (slack : Block)
    → Payloads xs
    → p ≢ 0
    → Holds (xs ++ p ∷ []) (xs ++ p ∷ 0 ∷ slack)
snoc-Holds xs p slack h ne = record {
  slack = slack;
  layout = sym (append_assoc xs (p ∷ []) (0 ∷ slack));
  payloads = All-append _ xs (p ∷ []) h (ne, tt);
}

add-block :
    (junk p : ℕ) {xs : List ℕ} (b : Block)
    → Holds xs b
    → p ≢ 0
    → (b' : Block) × (add junk (some b) p ≡ some b') × Holds (xs ++ p ∷ []) b'
unfolding add size
add-block junk p {xs} b h ne =
    let (slack, grown) = realloc-Holds junk 1 h in
    let (c, one) = realloc-one junk slack in
    let second : store (length xs + 1) 0 (xs ++ p ∷ c ∷ []) ≡ some (xs ++ p ∷ 0 ∷ []) =
      store-next xs p c 0 [] in
    (
      xs ++ p ∷ 0 ∷ [],
      rw (Holds-size h) (rw grown (rw one (rw (store-append xs 0 p (c ∷ [])) second))),
      snoc-Holds xs p [] h.payloads ne,
    )

-- On an array that holds `xs`, NULL included, vec_addlstlst returns an array that holds `xs` and
-- then the payload, whatever memory `realloc` gives.
pub add-IsArray :
    (junk p : ℕ) (xs : List ℕ) (lptr : Option Block)
    → IsArray xs lptr
    → p ≢ 0
    → (b : Block) × (add junk lptr p ≡ some b) × Holds (xs ++ p ∷ []) b
add-IsArray junk p xs none h ne =
    (p ∷ 0 ∷ [], unfold add in refl, record { slack = []; layout = rw h; payloads = rw h (ne, tt) })
add-IsArray junk p xs (some b) h ne = add-block junk p b h ne

-- ---- vec_mrglstlst ----

copy_at-append :
    (t : ℕ) (xs cs ds : List ℕ)
    → t ≡ length xs
    → length ds ≡ length cs
    → copy_at t cs (xs ++ ds) ≡ some (xs ++ cs)
unfolding copy_at
copy_at-append t xs [] [] e l = refl
copy_at-append t xs [] (d ∷ ds) e l = absurd (omega arith)
copy_at-append t xs (c ∷ cs) [] e l = absurd (omega arith)
copy_at-append t xs (c ∷ cs) (d ∷ ds) e l = rw e (
    rw (store-append xs d c ds) (
      ap (copy_at (length xs + 1) cs) (sym (append_assoc xs (c ∷ []) ds))
      ∙ copy_at-append (length xs + 1) (xs ++ c ∷ []) cs ds (sym (length-append xs (c ∷ [])))
          (omega arith)
      ∙ ap some (append_assoc xs (c ∷ []) cs)))

read-append : (xs slack : List ℕ) → read (length xs + 1) (xs ++ 0 ∷ slack) ≡ some (xs ++ 0 ∷ [])
unfolding read
read-append [] slack = refl
read-append (x ∷ xs) slack = rw suc-add (rw (read-append xs slack))

length-realloc : (junk n : ℕ) (b : Block) → length (realloc junk n b) ≡ n
unfolding realloc
length-realloc junk zero b = refl
length-realloc junk (suc n) [] = ap suc (length-realloc junk n [])
length-realloc junk (suc n) (c ∷ b) = ap suc (length-realloc junk n b)

read-Holds : {xs : List ℕ} {b : Block} → Holds xs b → read (length xs + 1) b ≡ some (xs ++ 0 ∷ [])
read-Holds {xs} h = rw h.layout (read-append xs h.slack)

merge-blocks :
    (junk : ℕ) {xs ys : List ℕ} {a b : Block}
    → Holds xs a
    → Holds ys b
    → copy_at (length xs) (ys ++ 0 ∷ []) (realloc junk (length xs + length ys + 1) a)
      ≡ some (xs ++ (ys ++ 0 ∷ []))
merge-blocks junk {xs} {ys} h k =
    let (slack, grown) = realloc-Holds junk (length ys) h in
    rw (add_assoc, grown)
      (copy_at-append (length xs) xs (ys ++ 0 ∷ []) (0 ∷ realloc junk (length ys) slack) refl
        (omega (arith, length-append ys (0 ∷ []), length-realloc junk (length ys) slack)))

-- the array that vec_mrglstlst starts from
start-Holds :
    (xs : List ℕ) (lptr : Option Block)
    → IsArray xs lptr
    → Holds xs (elim lptr [ none ↦ 0 ∷ [] | some b ↦ b ])
start-Holds xs none h = record { slack = []; layout = rw h; payloads = rw h tt }
start-Holds xs (some b) h = h

-- Merging an array that holds `ys` into one that holds `xs`, either of which may be NULL, gives
-- one that holds `xs` and then `ys`.
pub merge-IsArray :
    (junk : ℕ) (xs ys : List ℕ) (lptr ladd : Option Block)
    → IsArray xs lptr
    → IsArray ys ladd
    → (r : Option Block) × (merge junk lptr ladd ≡ some r) × IsArray (xs ++ ys) r
unfolding merge size
merge-IsArray junk xs ys lptr none h k = (lptr, refl, rw (k, append-nil) h)
merge-IsArray junk xs ys lptr (some ladd) h k =
    let start = start-Holds xs lptr h in
    (
      some (xs ++ (ys ++ 0 ∷ [])),
      rw (Holds-size start)
          (rw (Holds-size k) (rw (read-Holds k) (rw (merge-blocks junk start k)))),
      record {
        slack = [];
        layout = sym (append_assoc xs ys (0 ∷ []));
        payloads = All-append _ xs ys start.payloads k.payloads;
      },
    )
