-- ===== src/Signal.antt =====
-- The signal latch of lib/utlapl.c: the handler trapsig counts what arrives, and apl_checksig
-- turns the counts into the request flags that the supervisor reads. Signal numbers are those of
-- Linux, and `_NSIG` is 65.
pub mod Round
pub mod Check
mod Examples
use vzgot.Base.{
  ℕ, zero, suc, ◌+◌, ◌-◌, Bool, true, false, List, [], ◌∷◌, ltb, ◌==◌, if◌then◌else◌, set,
  get_elem?, Option, none, some,
}

abbrev pub hup : ℕ
hup = 1

abbrev pub int : ℕ
int = 2

abbrev pub quit : ℕ
quit = 3

abbrev pub usr1 : ℕ
usr1 = 10

abbrev pub usr2 : ℕ
usr2 = 12

abbrev pub term : ℕ
term = 15

abbrev pub chld : ℕ
chld = 17

abbrev pub cont : ℕ
cont = 18

abbrev pub pwr : ℕ
pwr = 30

abbrev pub nsig : ℕ
nsig = 65

-- the global request flags, and the debug level; `reports` counts the calls of apl_mem_report
pub record Flags : Type 0 where
  pub sigterm : Bool
  pub sigquit : Bool
  pub sigint : Bool
  pub sighup : Bool
  pub sigcont : Bool
  pub debug : ℕ
  pub reports : ℕ

pub record Latch : Type 0 where
  pub counts : List ℕ
  pub flags : Flags

-- `signal_counts[sig]++`
unfoldable pub bump : ℕ → List ℕ → List ℕ
bump sig [] = []
bump zero (c ∷ cs) = (c + 1) ∷ cs
bump (suc sig) (c ∷ cs) = c ∷ bump sig cs

unfoldable pub trapsig : ℕ → Latch → Latch
unfolding bump
trapsig sig l = record l { counts = bump sig l.counts }

-- the `switch` on a signal that is pending
unfoldable pub raise : ℕ → Flags → Flags
raise i f =
    if i == int
    then record f { sigint = true }
    else if i == hup
    then record f { sighup = true }
    else if i == quit
    then record f { sigquit = true; sigterm = true }
    else if i == chld
    then f
    else if i == usr1
    then record f { debug = f.debug + 1 }
    else if i == usr2
    then record f { debug = (if ltb 0 f.debug then f.debug - 1 else f.debug) }
    else if i == term
    then record f { sigterm = true }
    else if i == pwr
    then record f { reports = f.reports + 1 }
    else if i == cont
    then record f { sigcont = true }
    else f

-- the loop, from signal `i` on: the counts left, the flags, and the number of signals seen
unfoldable pub check_from : ℕ → List ℕ → Flags → List ℕ × Flags × ℕ
check_from i [] f = ([], f, 0)
check_from i (c ∷ cs) f =
    let (left, g, n) = check_from (suc i) cs (if c == 0 then f else raise i f) in
    (0 ∷ left, g, c + n)

unfoldable pub checksig : Latch → Latch × ℕ
unfolding check_from raise
checksig l =
    let (left, g, n) = check_from 0 l.counts l.flags in (record { counts = left; flags = g }, n)
