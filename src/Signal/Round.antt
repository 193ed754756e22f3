-- ===== src/Signal/Round.antt =====
-- The loop of apl_checksig: the counts, the flags and the debug level that its rounds leave.
use vzgot.Base.{
  ℕ, suc, ◌+◌, ◌-◌, ◌<◌, ◌≡◌, ◌≢◌, refl, ap, ◌∙◌, Bool, false, not, ◌&&◌, ◌||◌, List, [], ◌∷◌,
  arith, ◌==◌, if◌then◌else◌, Bool-cases, ==_iff, inl, inr, sym,
}
use vzgot.Signal.{Flags, hup, int, quit, usr1, usr2, term, cont, raise, check_from}

-- signal `s` is pending, in counts that start at signal `i`
abbrev pub pending : ℕ → ℕ → List ℕ → Bool
pending s i [] = false
pending s i (c ∷ cs) = (s == i && not (c == 0)) || pending s (suc i) cs

abbrev pub total : List ℕ → ℕ
total [] = 0
total (c ∷ cs) = c + total cs

abbrev pub zeros : List ℕ → List ℕ
zeros [] = []
zeros (c ∷ cs) = 0 ∷ zeros cs

pub pending-past : (s i : ℕ) (cs : List ℕ) → s < i → pending s i cs ≡ false
pending-past s i [] h = refl
pending-past s i (c ∷ cs) h = ground (arith, pending-past s (suc i) cs)

-- the flags that a round of the loop leaves
pub record Raised (i : ℕ) (cs : List ℕ) (f g : Flags) : Type 0 where
  pub int_iff : g.sigint ≡ (f.sigint || pending int i cs)
  pub hup_iff : g.sighup ≡ (f.sighup || pending hup i cs)
  pub quit_iff : g.sigquit ≡ (f.sigquit || pending quit i cs)
  pub term_iff : g.sigterm ≡ (f.sigterm || (pending quit i cs || pending term i cs))
  pub cont_iff : g.sigcont ≡ (f.sigcont || pending cont i cs)

pub raise-Raised : (i : ℕ) (f : Flags) → Raised i (1 ∷ []) f (raise i f)
unfolding raise
raise-Raised i f = record {
  int_iff = ground arith;
  hup_iff = ground arith;
  quit_iff = ground arith;
  term_iff = ground arith;
  cont_iff = ground arith;
}

pub Raised-cons :
    (i c : ℕ) (cs : List ℕ) {f g h : Flags}
    → Raised i (1 ∷ []) f g
    → Raised (suc i) cs (if c == 0 then f else g) h
    → Raised i (c ∷ cs) f h
Raised-cons i c cs a b = record {
  int_iff = ground (arith, a.int_iff, b.int_iff);
  hup_iff = ground (arith, a.hup_iff, b.hup_iff);
  quit_iff = ground (arith, a.quit_iff, b.quit_iff);
  term_iff = ground (arith, a.term_iff, b.term_iff);
  cont_iff = ground (arith, a.cont_iff, b.cont_iff);
}

pub check_from-Raised : (i : ℕ) (cs : List ℕ) (f : Flags) → Raised i cs f (check_from i cs f).1
unfolding check_from
check_from-Raised i [] f = ground arith
check_from-Raised i (c ∷ cs) f =
    Raised-cons i c cs {g = raise i f} (raise-Raised i f)
      (check_from-Raised (suc i) cs (if c == 0 then f else raise i f))

pub check_from_clears : (i : ℕ) (cs : List ℕ) (f : Flags) → (check_from i cs f).0 ≡ zeros cs
unfolding check_from
check_from_clears i [] f = refl
check_from_clears i (c ∷ cs) f = ap (◌∷◌ 0) (check_from_clears (suc i) cs _)

pub check_from-total : (i : ℕ) (cs : List ℕ) (f : Flags) → (check_from i cs f).2 ≡ total cs
unfolding check_from
check_from-total i [] f = refl
check_from-total i (c ∷ cs) f = ap (◌+◌ c) (check_from-total (suc i) cs _)

pub raise-debug_other : (i : ℕ) (f : Flags) → i ≢ usr1 → i ≢ usr2 → (raise i f).debug ≡ f.debug
unfolding raise
raise-debug_other i f a b = ground arith

pub raise-usr1 : (f : Flags) → (raise usr1 f).debug ≡ f.debug + 1
unfolding raise
raise-usr1 f = refl

pub raise-usr2 : (f : Flags) → (raise usr2 f).debug ≡ f.debug - 1
unfolding raise
raise-usr2 f = ground arith

-- the debug level: one up for SIGUSR1, then one down for SIGUSR2
abbrev pub debugged : ℕ → List ℕ → ℕ → ℕ
debugged i cs d =
    let up = if pending usr1 i cs then d + 1 else d in if pending usr2 i cs then up - 1 else up

pub debugged-skip : (i : ℕ) (cs : List ℕ) (d : ℕ) → debugged i (0 ∷ cs) d ≡ debugged (suc i) cs d
debugged-skip i cs d = ground arith

pub debugged-usr1 :
    (c : ℕ) (cs : List ℕ) (d : ℕ)
    → (c == 0) ≡ false
    → debugged usr1 (c ∷ cs) d ≡ debugged (suc usr1) cs (d + 1)
debugged-usr1 c cs d h = rw (h, pending-past usr1 (suc usr1) cs (omega arith))

pub debugged-usr2 :
    (c : ℕ) (cs : List ℕ) (d : ℕ)
    → (c == 0) ≡ false
    → debugged usr2 (c ∷ cs) d ≡ debugged (suc usr2) cs (d - 1)
debugged-usr2 c cs d h = rw (
  h,
  pending-past usr2 (suc usr2) cs (omega arith),
  pending-past usr1 (suc usr2) cs (omega arith),
)

pub debugged-other :
    (i c : ℕ) (cs : List ℕ) (d : ℕ)
    → (usr1 == i) ≡ false
    → (usr2 == i) ≡ false
    → debugged i (c ∷ cs) d ≡ debugged (suc i) cs d
debugged-other i c cs d a b = rw (a, b)

pub debugged-raise :
    (i c : ℕ) (cs : List ℕ) (f : Flags)
    → (c == 0) ≡ false
    → debugged (suc i) cs (raise i f).debug ≡ debugged i (c ∷ cs) f.debug
debugged-raise i c cs f h = elim (Bool-cases (usr1 == i)) [
  | inl one ↦ rw (← (==_iff usr1 i).0 one) (rw (raise-usr1 f) (sym (debugged-usr1 c cs f.debug h)))
  | inr not_one ↦ elim (Bool-cases (usr2 == i)) [
    | inl two ↦
        rw (← (==_iff usr2 i).0 two) (rw (raise-usr2 f) (sym (debugged-usr2 c cs f.debug h)))
    | inr not_two ↦
        rw (raise-debug_other i f (ground arith) (ground arith))
          (sym (debugged-other i c cs f.debug not_one not_two))
  ]
]

pub check_from-live :
    (i c : ℕ) (cs : List ℕ) (f : Flags)
    → (c == 0) ≡ false
    → (check_from i (c ∷ cs) f).1 ≡ (check_from (suc i) cs (raise i f)).1
unfolding check_from
check_from-live i c cs f h = rw h

pub check_from-debugged :
    (i : ℕ) (cs : List ℕ) (f : Flags) → (check_from i cs f).1.debug ≡ debugged i cs f.debug
unfolding check_from
check_from-debugged i [] f = refl
check_from-debugged i (c ∷ cs) f = elim (Bool-cases (c == 0)) [
  | inl zero_ ↦
      rw ((==_iff c 0).0 zero_)
        (check_from-debugged (suc i) cs f ∙ sym (debugged-skip i cs f.debug))
  | inr some_ ↦
      ap (λ (g : Flags). g.debug) (check_from-live i c cs f some_)
      ∙ (check_from-debugged (suc i) cs (raise i f) ∙ debugged-raise i c cs f some_)
]
