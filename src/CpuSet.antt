-- ===== src/CpuSet.antt =====
-- The processors of a container, lib/utlsys.c: sys_get_cpu_host_list, sys_get_cpu_cont_list,
-- cpuselector and sys_setcpuset. The numbers of type double, the C library's sscanf and rand, and
-- what the system answers are parameters; the arrays of cpuselector are long enough for every
-- processor that is online.
pub mod Picks
pub mod Weights
mod Examples
use vzgot.Base.{
  ℕ, zero, suc, ◌+◌, ◌%◌, ◌^◌, Bool, true, false, not, Option, none, some, List, [], ◌∷◌, ◌++◌,
  ◌==◌, if◌then◌else◌, ℤ, pos, negsuc,
}
use vzgot.Text.{Bytes, codes, line_of, c_str}
use vzgot.Template.Voc.{begins}
use vzgot.Pid.{print_number}

abbrev pub CpuSet : Type 0
CpuSet = ℕ → Bool

-- PHYCPU
pub record Phycpu : Type 0 where
  pub maxcpu : ℤ
  pub maxavail : ℤ
  pub selected : ℤ
  pub allocated : CpuSet

abbrev pub blank : Phycpu
blank = record { maxcpu = pos 0; maxavail = pos 0; selected = pos 0; allocated = λ cpu. false }

-- the type double, with what the code does with it
pub record Doubles : Type 1 where
  pub Double : Type 0
  pub zero_point : Double
  pub minus_one : Double
  pub hundred : Double
  pub add : Double → Double → Double
  pub sub : Double → Double → Double
  pub lt : Double → Double → Bool
  -- `1.0/(double)n`
  pub inverse : ℕ → Double
  -- `((double)r/RAND_MAX)*sum`
  pub scaled : ℕ → Double → Double
  -- `(long)((n*ratio)/100.0)`
  pub part : ℤ → Double → ℤ

pub record Host : Type 0 where
  -- `sysconf` and `sched_getaffinity`; `none` is an error
  pub configured : Option ℕ
  pub online : Option ℕ
  pub affinity : Option CpuSet
  -- /proc/stat
  pub stat : Option Bytes
  -- "cpu%d %llu %llu %llu", if all four are there
  pub scan : Bytes → Option (ℕ × ℕ × ℕ × ℕ)
  -- the answers of `rand` in their order
  pub rand : ℕ → ℕ
  -- the container's cpuset.cpus can be opened
  pub opens : Bool

-- the rounds of `for (i=0;i<n;i++)`
abbrev pub rounds : ℤ → ℕ
rounds (pos n) = n
rounds (negsuc n) = 0

abbrev pub same_int : ℤ → ℤ → Bool
same_int (pos a) (pos b) = a == b
same_int (negsuc a) (negsuc b) = a == b
same_int a b = false

abbrev pub long_of : Option ℕ → ℤ
long_of none = negsuc 0
long_of (some n) = pos n

-- ---- sys_get_cpu_host_list ----

unfoldable pub count_cpus : ℕ → ℕ → CpuSet → ℕ
count_cpus zero i set = 0
count_cpus (suc n) i set = (if set i then 1 else 0) + count_cpus n (i + 1) set

-- phases 1 to 4; after an error `isok` is true, as it was from the start
unfoldable pub get_cpu_host_list : Host → Bool × Phycpu
unfolding count_cpus
get_cpu_host_list h = elim h.configured [
  | none ↦ (true, record blank { maxcpu = negsuc 0 })
  | some conf ↦ elim h.online [
    | none ↦ (true, record blank { maxcpu = pos conf; maxavail = negsuc 0 })
    | some onln ↦ elim h.affinity [
      | none ↦ (true, record blank { maxcpu = pos conf; maxavail = pos onln })
      | some set ↦
          let count = count_cpus conf 0 set in
          (
            onln == count,
            record {
              maxcpu = pos conf;
              maxavail = pos onln;
              selected = pos count;
              allocated = set;
            },
          )
    ]
  ]
]

-- sys_get_cpu_cont_list, of the static variable
unfoldable pub get_cpu_cont_list : Phycpu → Bool × Phycpu
get_cpu_cont_list cont_cpus_list = (true, cont_cpus_list)

-- ---- cpuselector ----

-- the numbers of the set, as phase 7 writes them; `buf` is what stands before the next one
unfoldable pub listed : ℕ → ℕ → CpuSet → List ℕ
listed zero i set = []
listed (suc n) i set = let rest = listed n (i + 1) set in if set i then i ∷ rest else rest

unfoldable pub show_cpus : Bytes → List ℕ → Bytes
show_cpus buf [] = b'\n' ∷ []
show_cpus buf (i ∷ cpus) = buf ++ (print_number i ++ show_cpus (codes ",") cpus)

module _ (d : Doubles) where
  abbrev pub Weights : Type 0
  Weights = ℕ → d.Double

  abbrev pub set_weight : ℕ → d.Double → Weights → Weights
  set_weight cpu v weights n = if n == cpu then v else weights n

  -- what the drawing works on
  pub record Draw : Type 0 where
    pub allocated : CpuSet
    pub weights : Weights
    pub sum_w : d.Double

  -- phase 1
  unfoldable pub prepare : d.Double → Phycpu → Phycpu
  prepare ratio hostcpus =
      let wanted = d.part hostcpus.maxavail (if d.lt d.hundred ratio then d.hundred else ratio) in
      record {
        maxcpu = hostcpus.maxcpu;
        maxavail = hostcpus.maxavail;
        selected = (elim wanted [ pos n ↦ if n == 0 then pos 1 else pos n | negsuc n ↦ pos 1 ]);
        allocated = λ cpu. false;
      }

  module _ (h : Host) where
    -- the tests of phase 4 on a line; the load of the processor
    unfoldable pub scan_line : ℕ → Bytes → Option ℕ
    scan_line i buf =
        if begins (codes "cpu") buf
        then elim (h.scan buf) [
          | none ↦ none
          | some (cpu_id, u, n, s) ↦ if cpu_id == i then some ((u + n + s) % 2 ^ 64) else none
        ]
        else none

    -- phase 4, from processor `i` on
    unfoldable pub get_weights :
        ℕ → ℕ → CpuSet → Bytes → Weights → d.Double → Option (Weights × d.Double)
    get_weights zero i set file weights sum_w = some (weights, sum_w)
    get_weights (suc n) i set file weights sum_w =
        let skipped = get_weights n (i + 1) set file weights sum_w in
        let (line, rest) = line_of 1023 file in
        let read : Option (Weights × d.Double) = elim (scan_line i (c_str line)) [
          | none ↦ none
          | some work ↦
              let weight = d.inverse ((work + 1) % 2 ^ 64) in
              get_weights n (i + 1) set rest (set_weight i weight weights) (d.add sum_w weight)
        ] in
        if set i then elim file [ [] ↦ none | c ∷ more ↦ read ] else skipped

    module _ (maxavail : ℕ) where
      -- the inner loop of phase 5
      unfoldable pub pick : ℕ → ℕ → ℕ → d.Double → d.Double → Weights → Option ℕ
      pick zero j start aleas load weights = none
      pick (suc n) j start aleas load weights =
          let cpu = (start + j) % maxavail in
          let gone_by = pick n (j + 1) start aleas load weights in
          let more = d.add load (weights cpu) in
          let later = pick n (j + 1) start aleas more weights in
          if d.lt (weights cpu) d.zero_point
          then gone_by
          else if d.lt aleas more
          then some cpu
          else later

      unfoldable pub take_cpu : Option ℕ → Draw → Draw
      take_cpu none s = s
      take_cpu (some cpu) s = record {
        allocated = λ n. if n == cpu then true else s.allocated n;
        weights = set_weight cpu d.minus_one s.weights;
        sum_w = d.sub s.sum_w (s.weights cpu);
      }

      -- phase 5; `r` counts the calls of `rand`
      unfoldable pub draw : ℕ → ℕ → Draw → Draw
      unfolding take_cpu
      draw zero r s = s
      draw (suc n) r s =
          let aleas = d.scaled (h.rand r) s.sum_w in
          let start = h.rand (r + 1) % maxavail in
          draw n (r + 2) (take_cpu (pick maxavail 0 start aleas d.zero_point s.weights) s)

    -- what is returned, the static variable, and what is written to cpuset.cpus
    pub record Out : Type 0 where
      pub isok : Bool
      pub cont_cpus_list : Phycpu
      pub written : Option Bytes

    -- phases 6 to 8
    unfoldable pub store : Phycpu → Out
    unfolding listed show_cpus
    store todraw = record {
      isok = h.opens;
      cont_cpus_list = todraw;
      written =
          if h.opens
          then some (show_cpus [] (listed (rounds todraw.maxcpu) 0 todraw.allocated))
          else none;
    }

    -- phase 5; `none` is the division by a `maxavail` of 0
    unfoldable pub select_from : ℤ → Phycpu → Weights → d.Double → Option Phycpu
    unfolding draw
    select_from (negsuc n) todraw weights sum_w = some todraw
    select_from (pos zero) todraw weights sum_w = none
    select_from (pos (suc n)) todraw weights sum_w = some record todraw {
      allocated =
          (draw (suc n) (rounds todraw.selected) 0
            record { allocated = todraw.allocated; weights = weights; sum_w = sum_w }).allocated;
    }

    -- phases 5 to 8
    unfoldable pub select_and_store : Option Phycpu → Option Out
    unfolding store
    select_and_store none = none
    select_and_store (some todraw) = some (store todraw)

    abbrev pub fails : Phycpu → Out
    fails cache = record { isok = false; cont_cpus_list = cache; written = none }

    -- phases 5 to 8, with what phase 4 has read
    unfoldable pub with_weights : Phycpu → Phycpu → Option (Weights × d.Double) → Option Out
    unfolding select_from select_and_store
    with_weights cache todraw none = some (fails cache)
    with_weights cache todraw (some (weights, sum_w)) =
        select_and_store (select_from todraw.maxavail todraw weights sum_w)

    -- phases 2 to 4: the first line of /proc/stat is passed over
    unfoldable pub read_stat : Phycpu → Option (Weights × d.Double)
    read_stat hostcpus = elim h.stat [
      | none ↦ none
      | some file ↦ elim file [
        | [] ↦ none
        | c ∷ more ↦
            get_weights (rounds hostcpus.maxavail) 0 hostcpus.allocated (line_of 1023 (c ∷ more)).1
              (λ cpu. d.zero_point) d.zero_point
      ]
    ]

    -- phases 1 to 8, with the answer of phase 0
    unfoldable pub with_host : d.Double → Phycpu → Bool × Phycpu → Option Out
    unfolding prepare read_stat with_weights
    with_host ratio cache (false, hostcpus) = some (fails cache)
    with_host ratio cache (true, hostcpus) =
        with_weights cache (prepare ratio hostcpus) (read_stat hostcpus)

    unfoldable pub cpuselector : d.Double → Phycpu → Option Out
    unfolding with_host
    cpuselector ratio cache = with_host ratio cache (get_cpu_host_list h)

    unfoldable pub setcpuset : d.Double → Phycpu → Option Out
    unfolding cpuselector
    setcpuset ratio cache = elim h.online [
      | none ↦ some (fails cache)
      | some maxcpu ↦ cpuselector ratio cache
    ]
