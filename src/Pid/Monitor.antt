-- ===== src/Pid/Monitor.antt =====
-- Which child of the container's process is taken for the monitoring process.
use vzgot.Base.{
  ℕ, zero, suc, ◌+◌, ◌^◌, ◌≤◌, ◌<◌, ◌≡◌, ◌≢◌, refl, sym, ap, ◌∙◌, Option, none, some, List, [], ◌∷◌,
  ◌++◌, arith, if◌then◌else◌, length, length-append, All, ◌==◌,
}
use vzgot.Text.{Bytes, skip_spaces, is_space}
use vzgot.Pid.{
  to_digits, scan_number, behind, ns_key, or_line, find_line, second, is_two, is_monitor,
  judge_child, scan_children, get_monitoring_pid,
}
use vzgot.Pid.Digits.{scan_number-to_digits, to_digits-append, length-to_digits}
use vzgot.Pid.File.{line_of-line, to_digits_plain}

-- what stands behind the key in the kernel's line, without the line feed
abbrev pub ns_numbers : ℕ → ℕ → Bytes
ns_numbers h n = b'\t' ∷ to_digits 10 h (b'\t' ∷ to_digits 10 n [])

skip_tab : (s : Bytes) → scan_number (b'\t' ∷ s) ≡ scan_number s
unfolding scan_number skip_spaces is_space
skip_tab s = refl

-- a process of a namespace below the host's: its number there is the second of the line
is_monitor-ns_numbers :
    (h n : ℕ)
    → h < 2 ^ 31
    → n < 2 ^ 31
    → is_monitor (some (ns_numbers h n ++ b'\n' ∷ [])) ≡ (n == 2)
unfolding is_monitor
is_monitor-ns_numbers h n hh hn =
    let line : ns_numbers h n ++ b'\n' ∷ []
        ≡ b'\t' ∷ to_digits 10 h (b'\t' ∷ to_digits 10 n (b'\n' ∷ [])) =
      ap (λ z. b'\t' ∷ z)
        (sym (to_digits-append 10 h (b'\t' ∷ to_digits 10 n []) (b'\n' ∷ []))
          ∙ ap (λ z. to_digits 10 h (b'\t' ∷ z)) (sym (to_digits-append 10 n [] (b'\n' ∷ [])))) in
    let first =
      skip_tab (to_digits 10 h (b'\t' ∷ to_digits 10 n (b'\n' ∷ [])))
      ∙ scan_number-to_digits 9 h b'\t' (to_digits 10 n (b'\n' ∷ [])) (omega arith) refl in
    let other =
      skip_tab (to_digits 10 n (b'\n' ∷ []))
      ∙ scan_number-to_digits 9 n b'\n' [] (omega arith) refl in
    ap (λ z. is_monitor (some z)) line ∙ ap (λ z. is_two (second z)) first ∙ ap is_two other

-- the other lines of a status file, the numbers of the process, and what follows them
pub record Info : Type 0 where
  pub before : List Bytes
  pub host : ℕ
  pub inner : ℕ
  pub after : Bytes

abbrev pub ns_line : Info → Bytes
ns_line i = ns_key ++ ns_numbers i.host i.inner

abbrev pub lines_before : List Bytes → Bytes → Bytes
lines_before [] rest = rest
lines_before (l ∷ ls) rest = l ++ b'\n' ∷ lines_before ls rest

-- a status file as the kernel writes it
abbrev pub status_file : Info → Bytes
status_file i = lines_before i.before (ns_line i ++ b'\n' ∷ i.after)

-- a line that fits the buffer and has another key
abbrev pub IsOther : Bytes → Type 0
IsOther l = All (λ c. c ≢ b'\n') l × (length l < 255) × (behind ns_key (l ++ b'\n' ∷ []) ≡ none)

pub record IsStatus (i : Info) : Type 0 where
  pub others : All IsOther i.before
  pub host_pid : i.host < 2 ^ 31
  pub inner_pid : i.inner < 2 ^ 31

find_line_step :
    (fuel : ℕ) (l rest : Bytes)
    → All (λ c. c ≢ b'\n') l
    → length l < 255
    → find_line (suc fuel) (l ++ b'\n' ∷ rest)
      ≡ or_line (behind ns_key (l ++ b'\n' ∷ [])) (find_line fuel rest)
unfolding find_line
find_line_step fuel [] rest h lt =
    ap (λ r. or_line (behind ns_key r.0) (find_line fuel r.1)) (line_of-line 255 [] rest h lt)
find_line_step fuel (c ∷ l) rest h lt =
    ap (λ r. or_line (behind ns_key r.0) (find_line fuel r.1)) (line_of-line 255 (c ∷ l) rest h lt)

ns_numbers-All : (h n : ℕ) → All (λ c. c ≢ b'\n') (ns_numbers h n)
ns_numbers-All h n = (omega arith, to_digits_plain 10 h _ (omega arith, to_digits_plain 10 n [] tt))

length-ns_numbers : (h n : ℕ) → length (ns_numbers h n) ≤ 22
length-ns_numbers h n =
    omega (arith, length-to_digits 10 h (b'\t' ∷ to_digits 10 n []), length-to_digits 10 n [])

find_line-last :
    (fuel h n : ℕ) (rest : Bytes)
    → find_line (suc fuel) (ns_key ++ (ns_numbers h n ++ b'\n' ∷ rest))
      ≡ some (ns_numbers h n ++ b'\n' ∷ [])
find_line-last fuel h n rest =
    find_line_step fuel (ns_key ++ ns_numbers h n) rest
      (
        omega arith,
        (
          omega arith,
          (omega arith, (omega arith, (omega arith, (omega arith, ns_numbers-All h n)))),
        ),
      )
      (omega (arith, length-ns_numbers h n))
    ∙ (unfold behind in refl)

find_line-before :
    (ls : List Bytes) (fuel h n : ℕ) (rest : Bytes)
    → All IsOther ls
    → length ls < fuel
    → find_line fuel (lines_before ls (ns_key ++ (ns_numbers h n ++ b'\n' ∷ rest)))
      ≡ some (ns_numbers h n ++ b'\n' ∷ [])
find_line-before ls zero h n rest others lt = absurd (omega arith)
find_line-before [] (suc fuel) h n rest others lt = find_line-last fuel h n rest
find_line-before (l ∷ ls) (suc fuel) h n rest others lt =
    let (clean, fits, other) = others.0 in
    let tail = lines_before ls (ns_key ++ (ns_numbers h n ++ b'\n' ∷ rest)) in
    find_line_step fuel l tail clean fits
    ∙ ap (λ o. or_line o (find_line fuel tail)) other
    ∙ find_line-before ls fuel h n rest others.1 (omega arith)

pub lines_before-length :
    (ls : List Bytes) (rest : Bytes) → length ls + length rest ≤ length (lines_before ls rest)
lines_before-length [] rest = omega arith
lines_before-length (l ∷ ls) rest =
    omega (arith, length-append l (b'\n' ∷ lines_before ls rest), lines_before-length ls rest)

-- The child in whose namespace the number is 2, by its own status file.
is_monitor-status :
    (i : Info)
    → IsStatus i
    → is_monitor (find_line (length (status_file i)) (status_file i)) ≡ (i.inner == 2)
is_monitor-status i s =
    ap is_monitor (
      find_line-before i.before (length (status_file i)) i.host i.inner i.after s.others
        (omega (arith, lines_before-length i.before (ns_line i ++ b'\n' ∷ i.after))))
    ∙ is_monitor-ns_numbers i.host i.inner s.host_pid s.inner_pid

-- The first child whose number in its namespace is 2, or whose status file is not readable; 0
-- without one.
unfoldable pub first_inner : (ℕ → Option Info) → List ℕ → ℕ
first_inner info [] = 0
first_inner info (c ∷ cs) = elim (info c) [
  | none ↦ c
  | some i ↦ if i.inner == 2 then c else first_inner info cs
]

-- nothing, or a good status file
abbrev pub IsGood : Option Info → Type 0
IsGood none = Unit
IsGood (some i) = IsStatus i

abbrev pub file_of : Option Info → Option Bytes
file_of none = none
file_of (some i) = some (status_file i)

judge_child-file_of :
    (c : ℕ) (i : Option Info) (others : ℕ)
    → IsGood i
    → judge_child c (file_of i) others
      ≡ (elim i [ none ↦ c | some i ↦ if i.inner == 2 then c else others ])
judge_child-file_of c none others g = refl
judge_child-file_of c (some i) others g = ap (λ b. if b then c else others) (is_monitor-status i g)

scan_children-first :
    (info : ℕ → Option Info) (status : ℕ → Option Bytes) (children : List ℕ)
    → ((c : ℕ) → IsGood (info c))
    → ((c : ℕ) → status c ≡ file_of (info c))
    → scan_children status children ≡ first_inner info children
unfolding scan_children first_inner
scan_children-first info status [] good files = refl
scan_children-first info status (c ∷ cs) good files =
    ap (λ f. judge_child c f (scan_children status cs)) (files c)
    ∙ ap (judge_child c (file_of (info c))) (scan_children-first info status cs good files)
    ∙ judge_child-file_of c (info c) (first_inner info cs) (good c)

-- When the status file of every child is as the kernel writes it, or cannot be opened,
-- cnt_get_monitoring_pid gives the first child that is process 2 of its namespace or whose file
-- cannot be opened, and 0 if there is none.
pub get_monitoring_pid-first :
    (info : ℕ → Option Info) (status : ℕ → Option Bytes) (children : List ℕ)
    → ((c : ℕ) → IsGood (info c))
    → ((c : ℕ) → status c ≡ file_of (info c))
    → get_monitoring_pid status (some children) ≡ first_inner info children
unfolding get_monitoring_pid
get_monitoring_pid-first info status children good files =
    scan_children-first info status children good files
