-- ===== src/Monitor/Pids.antt =====
-- What /dev/lastpid shows.
use vzgot.Base.{
  ◌≡◌, refl, sym, ap, ◌∙◌, true, Bool-cases, some, Option-cases, [], ◌∷◌, length, ◌==◌, take, inl,
  inr, arith,
}
use vzgot.Text.{Bytes, same, c_str}
use vzgot.Text.Scan.{same-eq}
use vzgot.Monitor.{Calls, Shown, store_pid, do_check_pids}

-- the device holds the text that was stored last
abbrev pub IsShown : Shown → Type 0
IsShown s = c_str s.device ≡ s.prv_val

take_all : (s : Bytes) → take (length s) s ≡ s
take_all [] = refl
take_all (c ∷ s) = ap (λ r. c ∷ r) (take_all s)

store_pid-IsShown :
    (c : Calls) (cur_val : Bytes) (s : Shown)
    → c.written cur_val ≡ length cur_val
    → (store_pid c cur_val s).0 ≡ true
    → ((store_pid c cur_val s).1.prv_val ≡ c_str cur_val) × IsShown (store_pid c cur_val s).1
unfolding store_pid
store_pid-IsShown c cur_val s whole said = elim (Bool-cases c.opens_device) [
  | inr shut ↦ absurd (ground arith)
  | inl opened ↦
      let all : (c.written cur_val == length cur_val) ≡ true = ground arith in
      let kept : take (c.written cur_val) cur_val ≡ cur_val =
        ap (λ n. take n cur_val) whole ∙ take_all cur_val in
      rw (opened, all, kept) (refl, refl)
]

-- When /dev/lastpid holds the text stored last, and what is written is written whole, a call of
-- do_check_pids that returns true has read the last pid of the kernel, and then the device
-- holds the first 15 bytes of its text.
pub do_check_pids-IsShown :
    (c : Calls) (s : Shown)
    → IsShown s
    → ((cur_val : Bytes) → c.written cur_val ≡ length cur_val)
    → (do_check_pids c s).0 ≡ true
    → (line : Bytes) × (c.last_pid ≡ some line)
      × (c_str (do_check_pids c s).1.device ≡ c_str (take 15 line))
      × IsShown (do_check_pids c s).1
unfolding do_check_pids
do_check_pids-IsShown c s shown whole = elim (Option-cases c.last_pid) [
  | inl unread ↦ rw (do_check_pids, unread) (λ said. absurd cc)
  | inr (line, read) ↦ elim (Bool-cases (same (c_str (take 15 line)) s.prv_val)) [
    | inl old ↦
        rw (do_check_pids, read, old)
          (λ said. (line, refl, shown ∙ sym (same-eq (c_str (take 15 line)) s.prv_val old), shown))
    | inr new ↦
        rw (do_check_pids, read, new)
          (λ said.
            let (stored, now) = store_pid-IsShown c (take 15 line) s (whole (take 15 line)) said in
            (line, refl, now ∙ stored, now))
  ]
]
