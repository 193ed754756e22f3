-- ===== src/Command/Options.antt =====
-- What main makes of its options.
use vzgot.Base.{
  ℕ, zero, suc, ◌+◌, ◌≡◌, ◌≢◌, refl, Bool, true, false, ◌&&◌, ◌||◌, not, none, some, List, [], ◌∷◌,
  ◌==◌, if◌then◌else◌, All, ap, ap₂, ◌∙◌, sym, arith,
}
use vzgot.Text.{Bytes}
use vzgot.Command.{usage, Trace, World, action}
use vzgot.Command.Main.{ℤ, pos, negsuc, pred, is_zero, Settings, set_option, set_options, run, main}

-- an option that the loop only takes note of
abbrev noted : ℕ × Bytes → Bool
noted (c, optarg) = c == b'c' || c == b'd' || c == b'f' || c == b'p' || c == b'v'

-- an option other than those and `V`: help, or unknown
abbrev asks_help : ℕ × Bytes → Bool
asks_help (c, optarg) = not (noted (c, optarg)) && not (c == b'V')

-- how often help is asked for
unfoldable pub helps : List (ℕ × Bytes) → ℕ
helps [] = 0
helps (o ∷ parsed) = let rest = helps parsed in if asks_help o then suc rest else rest

unfoldable pub lower : ℕ → ℤ → ℤ
lower zero z = z
lower (suc n) z = lower n (pred z)

unfoldable pub usages : ℕ → Trace → Trace
usages zero t = t
usages (suc n) t = usages n (usage ∷ t)

-- no version is asked for
abbrev pub Plain : List (ℕ × Bytes) → Type 0
Plain = All (λ o. o.0 ≢ b'V')

lower-if :
    (b : Bool) (n : ℕ) (z : ℤ)
    → lower (if b then suc n else n) z ≡ lower n (if b then pred z else z)
unfolding lower
lower-if true n z = refl
lower-if false n z = refl

usages-if :
    (b : Bool) (n : ℕ) (t : Trace)
    → usages (if b then suc n else n) t ≡ usages n (if b then usage ∷ t else t)
unfolding usages
usages-if true n t = refl
usages-if false n t = refl

lower-negsuc : (n m : ℕ) → lower n (negsuc m) ≡ negsuc (m + n)
unfolding lower pred
lower-negsuc zero m = let e : m ≡ m + 0 = omega arith in ap negsuc e
lower-negsuc (suc n) m =
    let e : suc m + n ≡ m + suc n = omega arith in lower-negsuc n (suc m) ∙ ap negsuc e

lower_below : (n : ℕ) → lower (suc n) (pos 0) ≡ negsuc n
unfolding lower pred
lower_below n = let e : 0 + n ≡ n = omega arith in lower-negsuc n 0 ∙ ap negsuc e

module _ (atoi : Bytes → ℤ) where
  set_option-help :
      (c : ℕ) (optarg : Bytes) (s : Settings)
      → c ≢ b'V'
      → ((set_option atoi (c, optarg) s).status
          ≡ (if asks_help (c, optarg) then pred s.status else s.status))
        × ((set_option atoi (c, optarg) s).trace
            ≡ (if asks_help (c, optarg) then usage ∷ s.trace else s.trace))
  unfolding set_option
  set_option-help c optarg s h = (ground arith, ground arith)

  set_options-helps :
      (parsed : List (ℕ × Bytes)) (s : Settings)
      → Plain parsed
      → ((set_options atoi parsed s).status ≡ lower (helps parsed) s.status)
        × ((set_options atoi parsed s).trace ≡ usages (helps parsed) s.trace)
  unfolding set_options helps
  set_options-helps [] s h = unfold lower usages in (refl, refl)
  set_options-helps ((c, optarg) ∷ parsed) s (h, hs) =
      let u = set_option atoi (c, optarg) s in
      let ih = set_options-helps parsed u hs in
      let e = set_option-help c optarg s h in
      let b = asks_help (c, optarg) in
      (
        ih.0 ∙ ap (lower (helps parsed)) e.0 ∙ sym (lower-if b (helps parsed) s.status),
        ih.1 ∙ ap (usages (helps parsed)) e.1 ∙ sym (usages-if b (helps parsed) s.trace),
      )

  -- Starting at status 0, without an option that asks for the version or for help, and without an
  -- unknown one, main runs action on the words and exits with its status; the other options,
  -- whichever they are, do not keep it from that.
  pub main_runs :
      (w : World) (parsed : List (ℕ × Bytes)) (words : List Bytes) (s : Settings)
      → Plain parsed
      → helps parsed ≡ 0
      → s.status ≡ pos 0
      → main atoi w parsed words s ≡ (
        elim (action w words s.trace).0 [ none ↦ none | some status ↦ some (pos status) ],
        (action w words s.trace).1,
      )
  unfolding main run is_zero lower usages
  main_runs w parsed words s h none_ fresh =
      let e = set_options-helps parsed s h in
      let status = e.0 ∙ ap (λ k. lower k s.status) none_ ∙ fresh in
      let trace = e.1 ∙ ap (λ k. usages k s.trace) none_ in ap₂ (run w words) status trace

  -- Starting at status 0, if help is asked for, or an unknown option is given, `n + 1` times, and
  -- the version never, then main prints the usage as often, runs no action, and exits with status
  -- -(n + 1).
  pub main-helps :
      (w : World) (parsed : List (ℕ × Bytes)) (words : List Bytes) (s : Settings) (n : ℕ)
      → Plain parsed
      → helps parsed ≡ suc n
      → s.status ≡ pos 0
      → main atoi w parsed words s ≡ (some (negsuc n), usages (suc n) s.trace)
  unfolding main run is_zero
  main-helps w parsed words s n h asked fresh =
      let e = set_options-helps parsed s h in
      let status =
        e.0 ∙ ap (λ k. lower k s.status) asked ∙ ap (lower (suc n)) fresh ∙ lower_below n in
      let trace = e.1 ∙ ap (λ k. usages k s.trace) asked in ap₂ (run w words) status trace
