-- ===== src/Vector.antt =====
-- The NULL-terminated pointer arrays of lib/utlvec.c. A block of memory is the list of its cells,
-- a pointer is a number with 0 for NULL, and `none` is a read or write past the block's end.
-- Memory that `realloc` adds holds any value `junk`; allocation does not fail, as in the code.
pub mod Array
pub mod Erase
mod Examples
use vzgot.Base.{
  ℕ, zero, suc, ◌+◌, Bool, true, false, Option, none, some, List, [], ◌∷◌, ◌++◌, leb, ◌==◌,
  if◌then◌else◌, length, take, drop,
}
use mathlib.Core.Option

abbrev pub Block : Type 0
Block = List ℕ

abbrev pub bind : {A B : Type 0} → Option A → (A → Option B) → Option B
bind none f = none
bind (some a) f = f a

unfoldable pub realloc : ℕ → ℕ → Block → Block
realloc junk zero b = []
realloc junk (suc n) [] = junk ∷ realloc junk n []
realloc junk (suc n) (c ∷ b) = c ∷ realloc junk n b

unfoldable pub store : ℕ → ℕ → Block → Option Block
store i v [] = none
store zero v (c ∷ b) = some (v ∷ b)
store (suc i) v (c ∷ b) = Option.map (◌∷◌ c) (store i v b)

-- `for (;*lptr!=0;lptr++,num++)`
unfoldable pub count_cells : Block → Option ℕ
count_cells [] = none
count_cells (c ∷ b) = let rest = Option.map suc (count_cells b) in if c == 0 then some 0 else rest

-- vec_sizelstlst
unfoldable pub size : Option Block → Option ℕ
unfolding count_cells
size none = some 0
size (some b) = count_cells b

-- vec_addlstlst
unfoldable pub add : ℕ → Option Block → ℕ → Option Block
unfolding size realloc store
add junk none payload = bind (store 0 payload (0 ∷ 0 ∷ [])) λ b. store 1 0 b
add junk (some b) payload =
    bind (size (some b))
      λ num. bind (store num payload (realloc junk (num + 2) b)) λ b'. store (num + 1) 0 b'

-- `memcpy(lptr+t1,ladd,n)`
unfoldable pub copy_at : ℕ → Block → Block → Option Block
copy_at t1 [] b = some b
copy_at t1 (c ∷ cs) b = bind (store t1 c b) λ b'. copy_at (t1 + 1) cs b'

-- the first `n` cells of a block, which `memcpy` reads
unfoldable pub read : ℕ → Block → Option Block
read zero b = some []
read (suc n) [] = none
read (suc n) (c ∷ b) = Option.map (◌∷◌ c) (read n b)

-- vec_mrglstlst
unfoldable pub merge : ℕ → Option Block → Option Block → Option (Option Block)
unfolding size realloc store copy_at read
merge junk lptr none = some lptr
merge junk lptr (some ladd) =
    let start : Block = elim lptr [ none ↦ 0 ∷ [] | some b ↦ b ] in
    bind (size (some start)) λ t1. bind (size (some ladd)) λ t2.
      bind (read (t2 + 1) ladd)
        λ cells. Option.map some (copy_at t1 cells (realloc junk (t1 + t2 + 1) start))

-- the rounds of the loop of vec_rmlstlst after the payload is found: each cell takes the next one
unfoldable pub shift : Block → Option Block
shift [] = none
shift (c ∷ []) = if c == 0 then some (c ∷ []) else none
shift (c ∷ d ∷ b) =
    let rest = Option.map (◌∷◌ d) (shift (d ∷ b)) in if c == 0 then some (c ∷ d ∷ b) else rest

-- vec_rmlstlst on a block; at the cell found `lptr--` and the loop's `lptr++` cancel out
unfoldable pub remove_cell : ℕ → Block → Option (Bool × Block)
unfolding shift
remove_cell payload [] = none
remove_cell payload (c ∷ b) =
    let rest = Option.map (λ (r : Bool × Block). (r.0, c ∷ r.1)) (remove_cell payload b) in
    if c == 0
    then some (false, c ∷ b)
    else if c == payload
    then Option.map (λ (b' : Block). (true, b')) (shift (c ∷ b))
    else rest

unfoldable pub remove : ℕ → Option Block → Option (Bool × Option Block)
unfolding remove_cell
remove payload none = some (false, none)
remove payload (some b) = Option.map (λ (r : Bool × Block). (r.0, some r.1)) (remove_cell payload b)

-- the payloads that the loop of vec_freelstlst hands to `freepayload`
unfoldable pub handed : Block → Option (List ℕ)
handed [] = none
handed (c ∷ b) = let rest = Option.map (◌∷◌ c) (handed b) in if c == 0 then some [] else rest

-- vec_freelstlst: the pointer returned, and the payloads freed
unfoldable pub free_all : Bool → Option Block → Option (Option Block × List ℕ)
unfolding handed
free_all has_free none = some (none, [])
free_all has_free (some b) =
    Option.map (λ (ps : List ℕ). (none, if has_free then ps else [])) (handed b)
