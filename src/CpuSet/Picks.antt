-- ===== src/CpuSet/Picks.antt =====
-- Which processors are drawn.
use vzgot.Base.{
  ℕ, zero, suc, ◌+◌, ◌%◌, ◌<◌, ◌≤◌, ◌≡◌, refl, sym, ap, subst, ◌∙◌, Bool, true, false, none, some,
  List, [], ◌∷◌, ◌==◌, if◌then◌else◌, length, All, Bool-cases, Option-cases, ◌⊎◌, Option, inl, inr,
  arith, pos,
}
use vzgot.CpuSet.Weights.{read_stat-zero, pick-weighted, true≢false}
use vzgot.CpuSet.{
  CpuSet, Phycpu, Doubles, Host, Weights, Draw, pick, take_cpu, draw, rounds, get_cpu_host_list,
  prepare, read_stat, store, with_host, with_weights, select_from, select_and_store, cpuselector,
  listed, show_cpus, Out,
}

-- the number is in the list
abbrev pub member : ℕ → List ℕ → Bool
member n [] = false
member n (c ∷ cpus) = if n == c then true else member n cpus

-- no number stands twice in the list
abbrev pub Distinct : List ℕ → Type 0
Distinct [] = Unit
Distinct (c ∷ cpus) = (member c cpus ≡ false) × Distinct cpus

abbrev pub cpus_of {ℓ} : {A : Type ℓ} → List (ℕ × A) → List ℕ
cpus_of [] = []
cpus_of (p ∷ picks) = p.0 ∷ cpus_of picks

module _ (d : Doubles) where
  -- a processor that is found, with the random number that found it
  abbrev pub put_pick : Option ℕ → d.Double → List (ℕ × d.Double) → List (ℕ × d.Double)
  put_pick none aleas picks = picks
  put_pick (some cpu) aleas picks = (cpu, aleas) ∷ picks

  -- the processors that phase 5 finds, one after the other, the newest first
  unfoldable pub picks_of : Host → ℕ → ℕ → ℕ → Draw d → List (ℕ × d.Double) → List (ℕ × d.Double)
  picks_of h maxavail zero r s picks = picks
  picks_of h maxavail (suc n) r s picks =
      let aleas = d.scaled (h.rand r) s.sum_w in
      let start = h.rand (r + 1) % maxavail in
      let found = pick d h maxavail maxavail 0 start aleas d.zero_point s.weights in
      picks_of h maxavail n (r + 2) (take_cpu d h maxavail found s) (put_pick found aleas picks)

  -- a processor of the host's set, or drawn with a negative random number
  abbrev pub IsOfHost : CpuSet → ℕ × d.Double → Type 0
  IsOfHost set (cpu, aleas) = (set cpu ≡ true) ⊎ (d.lt aleas d.zero_point ≡ true)

module _ (d : Doubles) (h : Host) (below : d.lt d.minus_one d.zero_point ≡ true)
    (added : (x y : d.Double) → d.lt y (d.add x d.zero_point) ≡ d.lt y x) (host : CpuSet)
    (maxavail : ℕ) (some_cpu : 0 < maxavail) where
  -- what a state that was reached with these draws satisfies; `before` is the set at the start
  record Drawn (before : CpuSet) (picks : List (ℕ × d.Double)) (s : Draw d) : Type 0 where
    in_range : All (λ c. c < maxavail) (cpus_of picks)
    distinct : Distinct (cpus_of picks)
    of_host : All (IsOfHost d host) picks
    drawn : (n : ℕ) → s.allocated n ≡ (if member n (cpus_of picks) then true else before n)
    gone : (n : ℕ) → member n (cpus_of picks) ≡ true → s.weights n ≡ d.minus_one
    weightless :
        (n : ℕ) → host n ≡ false → (s.weights n ≡ d.zero_point) ⊎ (s.weights n ≡ d.minus_one)

  pick-lt :
      (n j start : ℕ) (aleas load : d.Double) (weights : Weights d) (cpu : ℕ)
      → pick d h maxavail n j start aleas load weights ≡ some cpu
      → (cpu < maxavail) × (d.lt (weights cpu) d.zero_point ≡ false)
  unfolding pick
  pick-lt zero j start aleas load weights cpu e = cc
  pick-lt (suc n) j start aleas load weights cpu e =
      let c = (start + j) % maxavail in
      let more = d.add load (weights c) in
      elim (Bool-cases (d.lt (weights c) d.zero_point)) [
        | inl gone ↦ pick-lt n (j + 1) start aleas load weights cpu (rw gone at e)
        | inr there ↦ elim (Bool-cases (d.lt aleas more)) [
          | inr less ↦ pick-lt n (j + 1) start aleas more weights cpu (rw (there, less) at e)
          | inl found ↦
              let same : some c ≡ some cpu = rw (there, found) at e in
              let eq : c ≡ cpu = cc in
              subst (λ x. (x < maxavail) × (d.lt (weights x) d.zero_point ≡ false)) eq
                (grind arith, there)
        ]
      ]

  take_cpu-Drawn :
      (before : CpuSet) (picks : List (ℕ × d.Double)) (s : Draw d) (cpu : ℕ) (aleas : d.Double)
      → Drawn before picks s
      → cpu < maxavail
      → d.lt (s.weights cpu) d.zero_point ≡ false
      → IsOfHost d host (cpu, aleas)
      → Drawn before ((cpu, aleas) ∷ picks) (take_cpu d h maxavail (some cpu) s)
  unfolding take_cpu
  take_cpu-Drawn before picks s cpu aleas v lt there of_host = record {
    in_range = (lt, v.in_range);
    of_host = (of_host, v.of_host);
    weightless = λ n out. elim (Bool-cases (n == cpu)) [
      | inl e ↦ rw e (inr refl)
      | inr e ↦ rw e (v.weightless n out)
    ];
    distinct = (
      elim (Bool-cases (member cpu (cpus_of picks))) [
        | inr new ↦ new
        | inl old ↦
            absurd (
              true≢false (sym below ∙ ap (λ x. d.lt x d.zero_point) (sym (v.gone cpu old)) ∙ there))
      ],
      v.distinct,
    );
    drawn = λ n. elim (Bool-cases (n == cpu)) [ inl e ↦ rw e refl | inr e ↦ rw e (v.drawn n) ];
    gone = λ n m. elim (Bool-cases (n == cpu)) [
      | inl e ↦ rw e refl
      | inr e ↦ rw e (v.gone n (rw e at m))
    ];
  }

  -- with a random number that is not negative, only a processor of the host is found
  pick-IsOfHost :
      (before : CpuSet) (picks : List (ℕ × d.Double)) (s : Draw d) (start cpu : ℕ)
      (aleas : d.Double)
      → Drawn before picks s
      → pick d h maxavail maxavail 0 start aleas d.zero_point s.weights ≡ some cpu
      → d.lt (s.weights cpu) d.zero_point ≡ false
      → IsOfHost d host (cpu, aleas)
  pick-IsOfHost before picks s start cpu aleas v e there =
      elim (Bool-cases (d.lt aleas d.zero_point)) [
        | inl low ↦ inr low
        | inr high ↦ elim (Bool-cases (host cpu)) [
          | inl on ↦ inl on
          | inr off ↦ elim (v.weightless cpu off) [
            | inl z ↦ absurd (
                pick-weighted d h added maxavail maxavail 0 start aleas d.zero_point s.weights cpu
                  high e z)
            | inr m ↦
                absurd (true≢false (sym below ∙ ap (λ x. d.lt x d.zero_point) (sym m) ∙ there))
          ]
        ]
      ]

  draw-Drawn :
      (n r : ℕ) (before : CpuSet) (picks : List (ℕ × d.Double)) (s : Draw d)
      → Drawn before picks s
      → (length (picks_of d h maxavail n r s picks) ≤ length picks + n)
        × Drawn before (picks_of d h maxavail n r s picks) (draw d h maxavail n r s)
  unfolding draw picks_of
  draw-Drawn zero r before picks s v = (omega arith, v)
  draw-Drawn (suc n) r before picks s v =
      let aleas = d.scaled (h.rand r) s.sum_w in
      let start = h.rand (r + 1) % maxavail in
      let found = pick d h maxavail maxavail 0 start aleas d.zero_point s.weights in
      elim (Option-cases found) [
        | inl lost ↦
            let (le, w) = draw-Drawn n (r + 2) before picks s v in
            rw lost (unfold take_cpu in (omega arith, w))
        | inr (cpu, e) ↦
            let (lt, there) = pick-lt maxavail 0 start aleas d.zero_point s.weights cpu e in
            let (le, w) =
              draw-Drawn n (r + 2) before ((cpu, aleas) ∷ picks)
                (take_cpu d h maxavail (some cpu) s)
                (take_cpu-Drawn before picks s cpu aleas v lt there
                  (pick-IsOfHost before picks s start cpu aleas v e there)) in
            rw e (omega arith, w)
      ]

if_self : (b : Bool) → (if b then true else false) ≡ b
if_self true = refl
if_self false = refl

-- The set is that of these processors, each found once, no more than are asked for, and below the
-- number of those online. Those found with a random number that is not negative are of the
-- host's set.
pub record IsChoice (d : Doubles) (hostcpus : Phycpu) (maxavail wanted : ℕ)
    (picks : List (ℕ × d.Double)) (set : CpuSet) : Type 0 where
  pub in_range : All (λ c. c < maxavail) (cpus_of picks)
  pub distinct : Distinct (cpus_of picks)
  pub of_host : All (IsOfHost d hostcpus.allocated) picks
  pub few : length picks ≤ wanted
  pub drawn : (n : ℕ) → set n ≡ member n (cpus_of picks)

-- the state before the first draw
abbrev pub first_draw : (d : Doubles) → Weights d → d.Double → Draw d
first_draw d weights sum_w = record { allocated = λ cpu. false; weights = weights; sum_w = sum_w }

-- what cpuselector ends with when it has drawn `set`
abbrev pub chosen : (d : Doubles) (h : Host) → Phycpu → CpuSet → Out d h
chosen d h todraw set = record {
  isok = h.opens;
  cont_cpus_list = record todraw { allocated = set };
  written = if h.opens then some (show_cpus [] (listed (rounds todraw.maxcpu) 0 set)) else none;
}

-- When the host has a processor and its list and the lines of /proc/stat could be read, cpuselector
-- ends with the set of the processors that its draws find. No draw finds one that an earlier draw
-- has found; there are no more draws than the ratio asks for; each processor is below the number
-- of those online, and it is in the host's set, unless its random number was negative, as rounding
-- can make the sum of the weights that are left. If the container's cpuset.cpus can be opened, it
-- writes the numbers of this set, in order, and returns true. This supposes of the type double
-- that -1.0 < 0.0 and that adding 0.0 changes no comparison.
pub cpuselector-IsChoice :
    (d : Doubles) (h : Host) (ratio : d.Double) (cache hostcpus : Phycpu) (n : ℕ)
    (weights : Weights d) (sum_w : d.Double)
    → d.lt d.minus_one d.zero_point ≡ true
    → ((x y : d.Double) → d.lt y (d.add x d.zero_point) ≡ d.lt y x)
    → get_cpu_host_list h ≡ (true, hostcpus)
    → hostcpus.maxavail ≡ pos (suc n)
    → read_stat d h hostcpus ≡ some (weights, sum_w)
    → (set : CpuSet) × (cpuselector d h ratio cache
        ≡ some (chosen d h (prepare d ratio hostcpus) set))
      × IsChoice d hostcpus
          (suc n)
          (rounds (prepare d ratio hostcpus).selected)
          (picks_of d h
            (suc n)
            (rounds (prepare d ratio hostcpus).selected)
            0
            (first_draw d weights sum_w)
            [])
          set
unfolding cpuselector with_host with_weights select_from select_and_store store prepare
cpuselector-IsChoice d h ratio cache hostcpus n weights sum_w below added known online read =
    let todraw = prepare d ratio hostcpus in
    let wanted = rounds todraw.selected in
    let start = first_draw d weights sum_w in
    let (le, v) =
      draw-Drawn d h below added hostcpus.allocated (suc n) (omega arith) wanted 0 (λ c. false) []
        start
        (record {
          in_range = tt;
          distinct = tt;
          of_host = tt;
          drawn = λ c. refl;
          gone = λ c m. cc;
          weightless = λ c out. inl (read_stat-zero d h hostcpus weights sum_w c out read);
        }) in
    (
      (draw d h (suc n) wanted 0 start).allocated,
      ap (with_host d h ratio cache) known
          ∙ ap (with_weights d h cache todraw) read
          ∙ ap (λ z. select_and_store d h (select_from d h z todraw weights sum_w)) online,
      record {
        in_range = v.in_range;
        of_host = v.of_host;
        distinct = v.distinct;
        few = omega arith;
        drawn = λ c. v.drawn c ∙ if_self (member c _);
      },
    )
