-- ===== src/Monitor/Window.antt =====
-- How often check_binding lets a mount be made again.
use vzgot.Base.{
  ℕ, ◌+◌, ◌≤◌, ◌<◌, ◌≡◌, refl, sym, ap, subst, ◌∙◌, Bool, true, false, Bool-cases, List, [], ◌∷◌,
  ◌++◌, length, All, All-append, inl, inr, ltb, leb, arith, if◌then◌else◌,
}
use vzgot.Monitor.{trygap, mxtry, purge, is_worn, note_binding, check_binding}

-- the times of the last half hour, of all times
unfoldable pub recent : ℕ → List ℕ → List ℕ
recent curtime [] = []
recent curtime (t ∷ times) =
    let rest = recent curtime times in if leb (t + trygap) curtime then rest else t ∷ rest

-- The reference: all the times that were accepted are kept, and a request is accepted when less
-- than 49 of them are of the last half hour.
unfoldable pub accept : ℕ → List ℕ → Bool × List ℕ
unfolding recent
accept curtime times =
    if ltb (length (recent curtime times)) 49 then (true, times ++ curtime ∷ []) else (false, times)

-- the answers to requests at these times
unfoldable pub answers : (ℕ → List ℕ → Bool × List ℕ) → List ℕ → List ℕ → List Bool
answers check [] state = []
answers check (curtime ∷ requests) state =
    let (isok, state') = check curtime state in isok ∷ answers check requests state'

-- the clock does not go back, from `now` on
abbrev pub IsForward : ℕ → List ℕ → Type 0
IsForward now [] = Unit
IsForward now (t ∷ times) = (now ≤ t) × IsForward t times

-- the array is ordered, and nothing in it is later than `now`
abbrev pub IsOrdered : ℕ → List ℕ → Type 0
IsOrdered now [] = Unit
IsOrdered now (t ∷ last) = (t ≤ now) × All (λ u. t ≤ u) last × IsOrdered now last

recent_all :
    (curtime t : ℕ) (last : List ℕ)
    → All (λ u. t ≤ u) last
    → curtime < t + trygap
    → recent curtime last ≡ last
unfolding recent
recent_all curtime t [] h lt = refl
recent_all curtime t (u ∷ last) h lt =
    let young : leb (u + trygap) curtime ≡ false = ground arith in
    rw young (ap (λ l. u ∷ l) (recent_all curtime t last h.1 lt))

purge-recent :
    (curtime now : ℕ) (last : List ℕ)
    → IsOrdered now last
    → purge curtime last ≡ recent curtime last
unfolding purge recent
purge-recent curtime now [] h = refl
purge-recent curtime now (t ∷ last) (le, above, h) = elim (Bool-cases (leb (t + trygap) curtime)) [
  | inl old ↦ rw old (purge-recent curtime now last h)
  | inr young ↦ rw young (ap (λ l. t ∷ l) (sym (recent_all curtime t last above (ground arith))))
]

recent-recent :
    (curtime now : ℕ) (times : List ℕ)
    → now ≤ curtime
    → recent curtime (recent now times) ≡ recent curtime times
unfolding recent
recent-recent curtime now [] le = refl
recent-recent curtime now (t ∷ times) le = elim (Bool-cases (leb (t + trygap) now)) [
  | inl old ↦
      let older : leb (t + trygap) curtime ≡ true = ground arith in
      rw (old, older) (recent-recent curtime now times le)
  | inr young ↦
      rw young (
        ap (λ l. if leb (t + trygap) curtime then l else t ∷ l)
          (recent-recent curtime now times le))
]

recent-append :
    (curtime : ℕ) (times : List ℕ)
    → recent curtime (times ++ curtime ∷ []) ≡ recent curtime times ++ curtime ∷ []
unfolding recent
recent-append curtime [] =
    let young : leb (curtime + trygap) curtime ≡ false = ground arith in rw young refl
recent-append curtime (t ∷ times) = elim (Bool-cases (leb (t + trygap) curtime)) [
  | inl old ↦ rw old (recent-append curtime times)
  | inr young ↦ rw young (ap (λ l. t ∷ l) (recent-append curtime times))
]

recent-All :
    (P : ℕ → Type 0) (curtime : ℕ) (times : List ℕ) → All P times → All P (recent curtime times)
unfolding recent
recent-All P curtime [] h = tt
recent-All P curtime (t ∷ times) h = elim (Bool-cases (leb (t + trygap) curtime)) [
  | inl old ↦ rw old (recent-All P curtime times h.1)
  | inr young ↦ rw young (h.0, recent-All P curtime times h.1)
]

recent-IsOrdered :
    (curtime now : ℕ) (times : List ℕ)
    → now ≤ curtime
    → IsOrdered now times
    → IsOrdered curtime (recent curtime times)
unfolding recent
recent-IsOrdered curtime now [] le h = tt
recent-IsOrdered curtime now (t ∷ times) le (early, above, h) =
    elim (Bool-cases (leb (t + trygap) curtime)) [
      | inl old ↦ rw old (recent-IsOrdered curtime now times le h)
      | inr young ↦ rw young (
        omega arith,
        recent-All (λ u. t ≤ u) curtime times above,
        recent-IsOrdered curtime now times le h,
      )
    ]

append-IsOrdered :
    (curtime : ℕ) (last : List ℕ)
    → IsOrdered curtime last
    → IsOrdered curtime (last ++ curtime ∷ [])
append-IsOrdered curtime [] h = (omega arith, tt, tt)
append-IsOrdered curtime (t ∷ last) (le, above, h) = (
  le,
  All-append (λ u. t ≤ u) last (curtime ∷ []) above (le, tt),
  append-IsOrdered curtime last h,
)

recent-is_worn :
    (curtime : ℕ) (times : List ℕ)
    → 0 < length (recent curtime times)
    → is_worn curtime (recent curtime times) ≡ true
unfolding recent is_worn
recent-is_worn curtime [] = λ h. absurd (omega arith)
recent-is_worn curtime (t ∷ times) = elim (Bool-cases (leb (t + trygap) curtime)) [
  | inl old ↦ rw old (λ h. recent-is_worn curtime times h)
  | inr young ↦ rw young (λ h. ground arith)
]

-- one request on a purged array
note_binding-accept :
    (curtime : ℕ) (times : List ℕ)
    → note_binding curtime (recent curtime times)
      ≡ ((accept curtime times).0, recent curtime (accept curtime times).1)
unfolding note_binding accept
note_binding-accept curtime times = elim (Bool-cases (ltb (length (recent curtime times)) 49)) [
  | inl few ↦
      let room : ltb (length (recent curtime times) + 1) mxtry ≡ true = ground arith in
      rw (few, room) (ap (λ l. (true, l)) (sym (recent-append curtime times)))
  | inr many ↦
      let full : ltb (length (recent curtime times) + 1) mxtry ≡ false = ground arith in
      rw (many, full, recent-is_worn curtime times (ground arith)) refl
]

check_binding-accept :
    (curtime now : ℕ) (times : List ℕ)
    → now ≤ curtime
    → IsOrdered now (recent now times)
    → check_binding curtime (recent now times)
      ≡ ((accept curtime times).0, recent curtime (accept curtime times).1)
unfolding check_binding
check_binding-accept curtime now times le h =
    ap (note_binding curtime)
      (purge-recent curtime now (recent now times) h ∙ recent-recent curtime now times le)
    ∙ note_binding-accept curtime times

-- the array stays ordered
accept-IsOrdered :
    (curtime now : ℕ) (times : List ℕ)
    → now ≤ curtime
    → IsOrdered now (recent now times)
    → IsOrdered curtime (recent curtime (accept curtime times).1)
unfolding accept
accept-IsOrdered curtime now times le h =
    let kept : IsOrdered curtime (recent curtime times) =
      subst (IsOrdered curtime) (recent-recent curtime now times le)
        (recent-IsOrdered curtime now (recent now times) le h) in
    elim (Bool-cases (ltb (length (recent curtime times)) 49)) [
      | inl few ↦ rw (few, recent-append curtime times) (append-IsOrdered curtime _ kept)
      | inr many ↦ rw many kept
    ]

answers_from :
    (requests : List ℕ) (now : ℕ) (times : List ℕ)
    → IsForward now requests
    → IsOrdered now (recent now times)
    → answers check_binding requests (recent now times) ≡ answers accept requests times
unfolding answers
answers_from [] now times f h = refl
answers_from (curtime ∷ requests) now times (le, f) h =
    ap (λ r. r.0 ∷ answers check_binding requests r.1) (check_binding-accept curtime now times le h)
    ∙ ap (λ l. (accept curtime times).0 ∷ l)
        (answers_from requests curtime (accept curtime times).1 f
          (accept-IsOrdered curtime now times le h))

-- As long as the clock does not go back, check_binding answers every request as the reference does
-- that keeps all times: it accepts one when less than 49 of those accepted are of the last half
-- hour.
pub check_binding-answers :
    (requests : List ℕ)
    → IsForward 0 requests
    → answers check_binding requests [] ≡ answers accept requests []
unfolding recent
check_binding-answers requests f = answers_from requests 0 [] f tt
