-- ===== src/Command/Main.antt =====
-- The option loop of app/vzgot.c, main. `parsed` is what getopt gives: the characters of the
-- options with their arguments, `?` for one that it does not know, and behind them the words;
-- getopt and atoi are of the C library.
use vzgot.Base.{
  ℕ, zero, suc, Bool, true, false, Option, none, some, List, [], ◌∷◌, ◌==◌, if◌then◌else◌,
}
use vzgot.Text.{Bytes}
use vzgot.Command.{usage, Trace, World, action}

-- the status goes below 0
pub data ℤ : Type 0 where
  pos : ℕ → ℤ
  negsuc : ℕ → ℤ

unfoldable pub pred : ℤ → ℤ
pred (pos zero) = negsuc 0
pred (pos (suc n)) = pos n
pred (negsuc n) = negsuc (suc n)

unfoldable pub is_zero : ℤ → Bool
is_zero (pos zero) = true
is_zero (pos (suc n)) = false
is_zero (negsuc n) = false

pub record Settings : Type 0 where
  pub confdir : Option Bytes
  pub debug : ℤ
  pub foreground : Bool
  pub privileged : Bool
  pub verbose : Bool
  pub status : ℤ
  pub trace : Trace

-- behind the option loop
unfoldable pub run : World → List Bytes → ℤ → Trace → Option ℤ × Trace
unfolding is_zero
run w words status t =
    let r = action w words t in
    let exit_status : Option ℤ = elim r.0 [ none ↦ none | some status ↦ some (pos status) ] in
    if is_zero status then (exit_status, r.1) else (some status, t)

module _ (atoi : Bytes → ℤ) where
  -- the `switch` of the loop; printing the version leaves no trace here
  unfoldable pub set_option : ℕ × Bytes → Settings → Settings
  unfolding pred
  set_option (c, optarg) s =
      if c == b'c'
      then record s { confdir = some optarg }
      else if c == b'd'
      then record s { debug = atoi optarg }
      else if c == b'f'
      then record s { foreground = true }
      else if c == b'p'
      then record s { privileged = true }
      else if c == b'V'
      then record s { status = pos 1 }
      else if c == b'v'
      then record s { verbose = true }
      else record s { status = pred s.status; trace = usage ∷ s.trace }

  unfoldable pub set_options : List (ℕ × Bytes) → Settings → Settings
  unfolding set_option
  set_options [] s = s
  set_options (o ∷ parsed) s = set_options parsed (set_option o s)

  -- main: the status that it exits with, or `none` for a process that execv has replaced
  unfoldable pub main : World → List (ℕ × Bytes) → List Bytes → Settings → Option ℤ × Trace
  unfolding set_options run
  main w parsed words s = let u = set_options parsed s in run w words u.status u.trace
