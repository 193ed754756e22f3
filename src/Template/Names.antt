-- ===== src/Template/Names.antt =====
-- The lookup of a variable by its name.
use vzgot.Base.{
  ◌≡◌, refl, Bool, true, false, ◌&&◌, Option, none, some, List, [], ◌∷◌, ◌==◌, All, arith,
  Bool-cases, inl, inr, ◌⊎◌,
}
use vzgot.Text.{Bytes}
use vzgot.Template.Voc.{Known, voc, number, begins, find_known, lookup}

-- the name finds this variable
abbrev pub Finds : Bytes → Known → Type 0
Finds name v = (k : Known) × (lookup name ≡ some k) × (number k.code ≡ number v.code)

found_itself : Known → Option Known → Bool
found_itself v none = false
found_itself v (some k) = number k.code == number v.code

all_found : List Known → Bool
unfolding found_itself
all_found [] = true
all_found (v ∷ table) = found_itself v (lookup v.varname) && all_found table

voc_found : all_found voc ≡ true
unfolding all_found lookup number
voc_found = refl

both : (a b : Bool) → (a && b) ≡ true → (a ≡ true) × (b ≡ true)
both true true h = (refl, refl)
both true false h = cc
both false b h = cc

all_found-Finds : (table : List Known) → all_found table ≡ true → All (λ v. Finds v.varname v) table
unfolding all_found
all_found-Finds [] h = tt
all_found-Finds (v ∷ table) h =
    let (first, others) = both _ _ h in
    (found_one (lookup v.varname) refl first, all_found-Finds table others)
  where
    found_one :
        (o : Option Known) → lookup v.varname ≡ o → found_itself v o ≡ true → Finds v.varname v
    found_one none e t = cc
    found_one (some k) e t = (k, e, ground arith)

-- Each known variable is found by its whole name, although a name is compared only over its own
-- length and the first match counts.
pub lookup-voc : All (λ v. Finds v.varname v) voc
lookup-voc = all_found-Finds voc voc_found

-- what is found begins with the name, and nothing before it in the table does
abbrev pub FirstWith : Bytes → Known → List Known → Type 0
FirstWith name k [] = ⊥
FirstWith name k (v ∷ table) =
    ((begins name v.varname ≡ true) × (k ≡ v))
    ⊎ ((begins name v.varname ≡ false) × FirstWith name k table)

find_known-FirstWith :
    (table : List Known) (name : Bytes) (k : Known)
    → find_known table name ≡ some k
    → FirstWith name k table
unfolding find_known
find_known-FirstWith [] name k h = cc
find_known-FirstWith (v ∷ table) name k h = elim (Bool-cases (begins name v.varname)) [
  | inl fits ↦ inl (fits, ground arith)
  | inr differs ↦ inr (differs, find_known-FirstWith table name k (ground arith))
]

-- What a name finds is the first variable of the table whose name begins with it, so that an
-- abbreviation, and the empty name, find one too.
pub lookup-FirstWith : (name : Bytes) (k : Known) → lookup name ≡ some k → FirstWith name k voc
unfolding lookup
lookup-FirstWith name k h = find_known-FirstWith voc name k h
