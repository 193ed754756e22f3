-- ===== src/Boot/Chain.antt =====
-- Rules for chains of phases: how a chain with early exits ends.
use vzgot.Base.{true, false, ap, ◌≡◌, if◌then◌else◌}
use vzgot.Boot.{Op, World, Supervisor, Out, through, toobad, must, ◌>>◌, log_call}

-- a chain of phases ends with `P` if it gets through, and with `Q` at TOOBAD
abbrev pub Ends : (Supervisor → Type 0) → (Supervisor → Type 0) → Out → Type 0
Ends P Q (through s) = P s
Ends P Q (toobad s) = Q s

module _ (w : World) where
  pub must-Ends :
      (P Q : Supervisor → Type 0) (op : Op) (s : Supervisor) (k : Supervisor → Out)
      → Q (log_call op false s)
      → Ends P Q (k (log_call op true s))
      → Ends P Q ((must w op >> k) s)
  must-Ends P Q op s k q p =
      elim (w.answer s.trace op)
        as (λ b.
          Ends P Q
            (◌>>◌ (λ _. if b then through (log_call op b s) else toobad (log_call op b s)) k s)) [
              | true ↦ p
              | false ↦ q
            ]

  pub seq-Ends :
      (P Q R : Supervisor → Type 0) (o : Out) (k : Supervisor → Out)
      → Ends P Q o
      → ((s : Supervisor) → P s → Ends R Q (k s))
      → Ends R Q (elim o [ through t ↦ k t | toobad t ↦ toobad t ])
  seq-Ends P Q R (through s) k h next = next s h
  seq-Ends P Q R (toobad s) k h next = h

  -- a call that fails ends the chain
  pub must_fails :
      (op : Op) (s : Supervisor) (k : Supervisor → Out)
      → w.answer s.trace op ≡ false
      → (must w op >> k) s ≡ toobad (log_call op false s)
  must_fails op s k h =
      ap (λ b. ◌>>◌ (λ _. if b then through (log_call op b s) else toobad (log_call op b s)) k s) h
