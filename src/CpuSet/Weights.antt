-- ===== src/CpuSet/Weights.antt =====
-- The weights that cpuselector reads.
use vzgot.Base.{
  ℕ, zero, suc, ◌+◌, ◌%◌, ◌^◌, ◌≡◌, ◌≢◌, refl, sym, ap, ◌∙◌, true, false, none, some, [], ◌∷◌, ◌==◌,
  Bool-cases, Option-cases, inl, inr, arith,
}
use vzgot.Text.{Bytes, line_of, c_str}
use vzgot.CpuSet.{
  CpuSet, Phycpu, Doubles, Host, Weights, set_weight, scan_line, get_weights, pick, read_stat,
  rounds,
}

pub true≢false : true ≢ false
true≢false e = cc

module _ (d : Doubles) (h : Host) where
  -- a processor that is not in the set keeps its weight
  get_weights-kept :
      (n i : ℕ) (set : CpuSet) (file : Bytes) (weights weights' : Weights d)
      (sum_w sum_w' : d.Double) (c : ℕ)
      → set c ≡ false
      → get_weights d h n i set file weights sum_w ≡ some (weights', sum_w')
      → weights' c ≡ weights c
  unfolding get_weights
  get_weights-kept zero i set file weights weights' sum_w sum_w' c out e =
      ap (λ o. elim o [ none ↦ weights c | some p ↦ p.0 c ]) (sym e)
  get_weights-kept (suc n) i set [] weights weights' sum_w sum_w' c out e =
      elim (Bool-cases (set i)) [
        | inl on ↦ absurd (cc (rw on at e))
        | inr off ↦
            get_weights-kept n (i + 1) set [] weights weights' sum_w sum_w' c out (rw off at e)
      ]
  get_weights-kept (suc n) i set (b ∷ file) weights weights' sum_w sum_w' c out e =
      elim (Bool-cases (set i)) [
        | inr off ↦
            get_weights-kept n (i + 1) set (b ∷ file) weights weights' sum_w sum_w' c out
              (rw off at e)
        | inl on ↦ elim (Option-cases (scan_line d h i (c_str (line_of 1023 (b ∷ file)).0))) [
          | inl bad ↦ absurd (cc (rw (on, bad) at e))
          | inr (work, good) ↦
              let weight = d.inverse ((work + 1) % 2 ^ 64) in
              let kept =
                get_weights-kept n (i + 1) set (line_of 1023 (b ∷ file)).1
                  (set_weight d i weight weights) weights' (d.add sum_w weight) sum_w' c out
                  (rw (on, good) at e) in
              elim (Bool-cases (c == i)) [
                | inr other ↦ kept ∙ rw other refl
                | inl same ↦
                    let eq : c ≡ i = ground arith in
                    absurd (true≢false (sym on ∙ ap set (sym eq) ∙ out))
              ]
        ]
      ]

  pub read_stat-zero :
      (hostcpus : Phycpu) (weights : Weights d) (sum_w : d.Double) (c : ℕ)
      → hostcpus.allocated c ≡ false
      → read_stat d h hostcpus ≡ some (weights, sum_w)
      → weights c ≡ d.zero_point
  unfolding read_stat
  read_stat-zero hostcpus weights sum_w c out e = elim (Option-cases h.stat) [
    | inl shut ↦ absurd (cc (rw (read_stat, shut) at e))
    | inr ([], empty) ↦ absurd (cc (rw (read_stat, empty) at e))
    | inr (b ∷ file, there) ↦
        get_weights-kept (rounds hostcpus.maxavail) 0 hostcpus.allocated (line_of 1023 (b ∷ file)).1
          (λ cpu. d.zero_point) weights d.zero_point sum_w c out (rw (read_stat, there) at e)
  ]

  -- a processor of weight 0 is passed over, once `aleas` is not below the load
  pub pick-weighted :
      (added : (x y : d.Double) → d.lt y (d.add x d.zero_point) ≡ d.lt y x) (maxavail n j start : ℕ)
      (aleas load : d.Double) (weights : Weights d) (cpu : ℕ)
      → d.lt aleas load ≡ false
      → pick d h maxavail n j start aleas load weights ≡ some cpu
      → weights cpu ≢ d.zero_point
  unfolding pick
  pick-weighted added maxavail zero j start aleas load weights cpu low e = λ z. cc
  pick-weighted added maxavail (suc n) j start aleas load weights cpu low e =
      let c = (start + j) % maxavail in
      let more = d.add load (weights c) in
      elim (Bool-cases (d.lt (weights c) d.zero_point)) [
        | inl gone ↦
            pick-weighted added maxavail n (j + 1) start aleas load weights cpu low (rw gone at e)
        | inr there ↦ elim (Bool-cases (d.lt aleas more)) [
          | inr less ↦
              pick-weighted added maxavail n (j + 1) start aleas more weights cpu less
                (rw (there, less) at e)
          | inl found ↦
              let same : some c ≡ some cpu = rw (there, found) at e in
              let eq : c ≡ cpu = cc in
              λ z. true≢false (
                sym found
                ∙ ap (λ x. d.lt aleas (d.add load x)) (ap weights eq ∙ z)
                ∙ added load aleas
                ∙ low)
        ]
      ]
