-- ===== src/Signal/Check.antt =====
-- What apl_checksig does to the flags, and what it makes of signals delivered before it.
use vzgot.Base.{
  ℕ, zero, suc, ◌+◌, ◌-◌, ◌<◌, ◌≡◌, refl, ap, ◌∙◌, Bool, false, ◌||◌, List, [], ◌∷◌, arith, ◌==◌,
  if◌then◌else◌, length, All,
}
use vzgot.Signal.{
  Flags, Latch, hup, int, quit, usr1, usr2, term, cont, nsig, bump, trapsig, checksig,
}
use vzgot.Signal.Round.{
  pending, total, zeros, check_from-Raised, check_from_clears, check_from-total,
  check_from-debugged,
}

-- the handler runs for each signal in turn
abbrev pub deliver : List ℕ → Latch → Latch
deliver [] l = l
deliver (s ∷ sigs) l = deliver sigs (trapsig s l)

abbrev pub delivered : ℕ → List ℕ → Bool
delivered s [] = false
delivered s (x ∷ sigs) = s == x || delivered s sigs

unfoldable pub all_zero : ℕ → List ℕ
all_zero zero = []
all_zero (suc n) = 0 ∷ all_zero n

abbrev pub idle : Flags → Latch
idle f = record { counts = all_zero nsig; flags = f }

pending-zero : (s i n : ℕ) → pending s i (all_zero n) ≡ false
unfolding all_zero
pending-zero s i zero = refl
pending-zero s i (suc n) = ground (arith, pending-zero s (suc i) n)

total-zero : (n : ℕ) → total (all_zero n) ≡ 0
unfolding all_zero
total-zero zero = refl
total-zero (suc n) = omega (arith, total-zero n)

zeros-zero : (n : ℕ) → zeros (all_zero n) ≡ all_zero n
unfolding all_zero
zeros-zero zero = refl
zeros-zero (suc n) = ap (◌∷◌ 0) (zeros-zero n)

length-zero : (n : ℕ) → length (all_zero n) ≡ n
unfolding all_zero
length-zero zero = refl
length-zero (suc n) = ap suc (length-zero n)

pending-bump :
    (s i sig : ℕ) (cs : List ℕ)
    → sig < length cs
    → pending s i (bump sig cs) ≡ (s == i + sig || pending s i cs)
unfolding bump
pending-bump s i sig [] h = absurd (omega arith)
pending-bump s i zero (c ∷ cs) h = ground arith
pending-bump s i (suc sig) (c ∷ cs) h = ground (arith, pending-bump s (suc i) sig cs)

total-bump : (sig : ℕ) (cs : List ℕ) → sig < length cs → total (bump sig cs) ≡ total cs + 1
unfolding bump
total-bump sig [] h = absurd (omega arith)
total-bump zero (c ∷ cs) h = omega arith
total-bump (suc sig) (c ∷ cs) h = omega (arith, total-bump sig cs (omega arith))

zeros-bump : (sig : ℕ) (cs : List ℕ) → zeros (bump sig cs) ≡ zeros cs
unfolding bump
zeros-bump sig [] = refl
zeros-bump zero (c ∷ cs) = refl
zeros-bump (suc sig) (c ∷ cs) = ap (◌∷◌ 0) (zeros-bump sig cs)

length-bump : (sig : ℕ) (cs : List ℕ) → length (bump sig cs) ≡ length cs
unfolding bump
length-bump sig [] = refl
length-bump zero (c ∷ cs) = refl
length-bump (suc sig) (c ∷ cs) = ap suc (length-bump sig cs)

-- what the latch holds once the signals have come in
record Holds (sigs : List ℕ) (l m : Latch) : Type 0 where
  held : (s : ℕ) → pending s 0 m.counts ≡ (delivered s sigs || pending s 0 l.counts)
  number : total m.counts ≡ length sigs + total l.counts
  shape : zeros m.counts ≡ zeros l.counts
  same : m.flags ≡ l.flags

deliver-Holds :
    (sigs : List ℕ) (l : Latch)
    → length l.counts ≡ nsig
    → All (λ s. s < nsig) sigs
    → Holds sigs l (deliver sigs l)
unfolding trapsig
deliver-Holds [] l e h = record {
  held = λ s. refl;
  number = omega arith;
  shape = refl;
  same = refl;
}
deliver-Holds (x ∷ sigs) l e h =
    let m = trapsig x l in
    let fits : x < length l.counts = omega arith in
    let rest =
      deliver-Holds sigs (record l { counts = bump x l.counts }) (length-bump x l.counts ∙ e) h.1 in
    record {
      held = λ s. ground (arith, rest.held s, pending-bump s 0 x l.counts fits);
      number = omega (arith, rest.number, total-bump x l.counts fits);
      shape = rest.shape ∙ zeros-bump x l.counts;
      same = rest.same;
    }

-- the flags after any signals, in any order: each is set exactly if it was, or its signal came
pub record Answers (f g : Flags) (sigs : List ℕ) : Type 0 where
  pub int_iff : g.sigint ≡ (f.sigint || delivered int sigs)
  pub hup_iff : g.sighup ≡ (f.sighup || delivered hup sigs)
  pub quit_iff : g.sigquit ≡ (f.sigquit || delivered quit sigs)
  pub term_iff : g.sigterm ≡ (f.sigterm || (delivered quit sigs || delivered term sigs))
  pub cont_iff : g.sigcont ≡ (f.sigcont || delivered cont sigs)
  pub debug_is : g.debug ≡ (
      let up = if delivered usr1 sigs then f.debug + 1 else f.debug in
      if delivered usr2 sigs then up - 1 else up)

-- After any sequence of signals below 65 that the handler took, with none pending before,
-- apl_checksig returns how many there were, leaves no count behind, and sets exactly the flags
-- whose signals came: repetitions and order do not matter, SIGQUIT also requests termination, and
-- the debug level goes up at most once for SIGUSR1 and then down at most once, not below 0, for
-- SIGUSR2.
pub checksig-deliver :
    (sigs : List ℕ) (f : Flags)
    → All (λ s. s < nsig) sigs
    → ((checksig (deliver sigs (idle f))).1 ≡ length sigs)
      × ((checksig (deliver sigs (idle f))).0.counts ≡ all_zero nsig)
      × Answers f (checksig (deliver sigs (idle f))).0.flags sigs
checksig-deliver sigs f h =
    let m = deliver sigs (idle f) in
    let k = deliver-Holds sigs (idle f) (length-zero nsig) h in
    let c = check_from-Raised 0 m.counts m.flags in
    unfold checksig in
    (
      check_from-total 0 m.counts m.flags ∙ k.number ∙ omega (arith, total-zero nsig),
      check_from_clears 0 m.counts m.flags ∙ k.shape ∙ zeros-zero nsig,
      record {
        int_iff = ground (arith, c.int_iff, k.same, k.held int, pending-zero int 0 nsig);
        hup_iff = ground (arith, c.hup_iff, k.same, k.held hup, pending-zero hup 0 nsig);
        quit_iff = ground (arith, c.quit_iff, k.same, k.held quit, pending-zero quit 0 nsig);
        term_iff = ground (
          arith,
          c.term_iff,
          k.same,
          k.held quit,
          k.held term,
          pending-zero quit 0 nsig,
          pending-zero term 0 nsig,
        );
        cont_iff = ground (arith, c.cont_iff, k.same, k.held cont, pending-zero cont 0 nsig);
        debug_is = ground (
          arith,
          check_from-debugged 0 m.counts m.flags,
          k.same,
          k.held usr1,
          k.held usr2,
          pending-zero usr1 0 nsig,
          pending-zero usr2 0 nsig,
        );
      },
    )
