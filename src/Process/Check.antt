-- ===== src/Process/Check.antt =====
-- prc_childcheck keeps the processes that are still there.
use vzgot.Base.{
  ℕ, suc, ◌+◌, ◌<◌, ◌≡◌, refl, Bool, true, false, Option, none, some, List, [], ◌∷◌, ◌++◌, length,
  Bool-cases, inl, inr, sym, append_assoc, append-nil, arith, subst,
}
use vzgot.Vector.{Block, realloc, store}
use vzgot.Process.{check_process, Queue, add_to_prc, keep_live, first_cells, child_check}

-- the processes of a list that are still there, in the order of the list
unfoldable pub live : (ℕ → Bool) → List ℕ → List ℕ
live answers [] = []
live answers (pid ∷ pids) =
    let rest = live answers pids in
    elim (check_process answers pid) [ true ↦ pid ∷ rest | false ↦ rest ]

-- the list holds the processes `pids`, and has one cell more; NULL holds none
pub data Holds : Option Queue → List ℕ → Type 0 where
  nothing : Holds none []
  cells :
      {q : Queue} {pids : List ℕ} (spare : ℕ)
      → q.nbr ≡ length pids
      → 0 < length pids
      → q.pqueue ≡ pids ++ spare ∷ []
      → Holds (some q) pids

store_spare :
    (pids : List ℕ) (spare pid : ℕ)
    → store (length pids) pid (pids ++ spare ∷ []) ≡ some (pids ++ pid ∷ [])
unfolding store
store_spare [] spare pid = refl
store_spare (p ∷ pids) spare pid = rw (store_spare pids spare pid) refl

realloc_spare : (junk : ℕ) (xs : List ℕ) → realloc junk (suc (length xs)) xs ≡ xs ++ junk ∷ []
unfolding realloc
realloc_spare junk [] = refl
realloc_spare junk (x ∷ xs) = rw (realloc_spare junk xs) refl

length_snoc : (xs : List ℕ) (x : ℕ) → length (xs ++ x ∷ []) ≡ length xs + 1
length_snoc [] x = refl
length_snoc (y ∷ xs) x = let e = length_snoc xs x in ground arith

add_cells :
    (junk nbr : ℕ) (pqueue : Block) (pids : List ℕ) (spare pid : ℕ)
    → nbr ≡ length pids
    → pqueue ≡ pids ++ spare ∷ []
    → (q : Queue) × (add_to_prc junk (some (record { nbr = nbr; pqueue = pqueue })) pid ≡ some q)
      × Holds (some q) (pids ++ pid ∷ [])
unfolding add_to_prc
add_cells junk nbr pqueue pids spare pid counted laid =
    let n = length_snoc pids pid in
    let r = realloc_spare junk (pids ++ pid ∷ []) in
    let size : 1 + (length pids + 1) ≡ suc (length (pids ++ pid ∷ [])) = omega arith in
    rw (counted, laid, store_spare pids spare pid, size, r)
      (_, refl, cells junk (sym n) (omega arith) refl)

add_to_prc-Holds :
    (junk : ℕ) (plst : Option Queue) (pids : List ℕ) (pid : ℕ)
    → Holds plst pids
    → (q : Queue) × (add_to_prc junk plst pid ≡ some q) × Holds (some q) (pids ++ pid ∷ [])
unfolding add_to_prc realloc store
add_to_prc-Holds junk none _ pid nothing = (_, refl, cells junk refl (omega arith) refl)
add_to_prc-Holds junk (some q) pids pid (cells spare counted some_ laid) =
    add_cells junk q.nbr q.pqueue pids spare pid counted laid

keep_live-Holds :
    (junk : ℕ) (answers : ℕ → Bool) (pids kept : List ℕ) (new : Option Queue)
    → Holds new kept
    → (result : Option Queue) × (keep_live junk answers pids new ≡ some result)
      × Holds result (kept ++ live answers pids)
unfolding keep_live live
keep_live-Holds junk answers [] kept new h = (new, refl, rw append-nil h)
keep_live-Holds junk answers (pid ∷ pids) kept new h =
    elim (Bool-cases (check_process answers pid)) [
      | inr gone ↦ rw (live, gone) (keep_live-Holds junk answers pids kept new h)
      | inl here ↦
          let a = add_to_prc-Holds junk new kept pid h in
          let r = keep_live-Holds junk answers pids (kept ++ pid ∷ []) (some a.0) a.2 in
          rw (live, here, a.1)
            (r.0, r.1, subst (Holds r.0) (append_assoc kept (pid ∷ []) (live answers pids)) r.2)
    ]

first_cells-append : (xs b : List ℕ) → first_cells (length xs) (xs ++ b) ≡ some xs
unfolding first_cells
first_cells-append [] b = refl
first_cells-append (x ∷ xs) b = rw (first_cells-append xs b) refl

-- On a list of processes as prc_addtoprc makes it, or NULL, prc_childcheck reads and writes only
-- inside the blocks, whatever processes `answers` says are there. It returns a list of exactly
-- those processes of the old one that prc_checkprocess finds active, in the old order: NULL when
-- there is none, and else with its count right and one cell to spare.
pub child_check-live :
    (junk : ℕ) (answers : ℕ → Bool) (prclst : Option Queue) (pids : List ℕ)
    → Holds prclst pids
    → (result : Option Queue) × (child_check junk answers prclst ≡ some result)
      × Holds result (live answers pids)
unfolding child_check live
child_check-live junk answers none _ nothing = (none, refl, nothing)
child_check-live junk answers (some q) pids (cells spare counted some_ laid) =
    rw (counted, laid, first_cells-append pids (spare ∷ []))
      (keep_live-Holds junk answers pids [] none nothing)
