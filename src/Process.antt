-- ===== src/Process.antt =====
-- Process numbers and lists of them: lib/subprc.c, prc_checkprocess, prc_addtoprc, prc_childcheck
-- and prc_childkill. A `pid_t` is a natural number here: the code's lists come from fork.
pub mod Check
pub mod Kill
pub mod Aim
pub mod Delay
mod Examples
use vzgot.Base.{
  ℕ, zero, suc, ◌+◌, ◌-◌, Bool, true, false, not, ◌||◌, Option, none, some, List, [], ◌∷◌, leb,
  ◌==◌, if◌then◌else◌, length,
}
use vzgot.Vector.{Block, bind, realloc, store}

-- `answers pid` is whether kill(pid,0) succeeds
unfoldable pub check_process : (ℕ → Bool) → ℕ → Bool
check_process answers pid = if pid == 0 then false else if pid == 1 then true else answers pid

-- PRCTYP: the number of processes, and the cells allocated for them
pub record Queue : Type 0 where
  pub nbr : ℕ
  pub pqueue : Block

-- prc_addtoprc; `none` is a write past the block
unfoldable pub add_to_prc : ℕ → Option Queue → ℕ → Option Queue
unfolding realloc store
add_to_prc junk plst pid =
    let start : Queue = elim plst [ none ↦ record { nbr = 0; pqueue = 0 ∷ [] } | some q ↦ q ] in
    bind (store start.nbr pid start.pqueue) λ cells.
      let nbr = start.nbr + 1 in some (record { nbr = nbr; pqueue = realloc junk (1 + nbr) cells })

-- the loop of prc_childcheck over the processes of the old list
unfoldable pub keep_live : ℕ → (ℕ → Bool) → List ℕ → Option Queue → Option (Option Queue)
unfolding add_to_prc check_process
keep_live junk answers [] new = some new
keep_live junk answers (pid ∷ pids) new =
    let next : Option (Option Queue) = elim (check_process answers pid) [
      | true ↦ bind (add_to_prc junk new pid) λ q. some (some q)
      | false ↦ some new
    ] in
    bind next λ q. keep_live junk answers pids q

-- the cells that `for (i=0;i<nbr;i++)` reads
unfoldable pub first_cells : ℕ → Block → Option (List ℕ)
first_cells zero b = some []
first_cells (suc n) [] = none
first_cells (suc n) (c ∷ b) = bind (first_cells n b) λ cells. some (c ∷ cells)

-- prc_childcheck
unfoldable pub child_check : ℕ → (ℕ → Bool) → Option Queue → Option (Option Queue)
unfolding keep_live first_cells
child_check junk answers none = some none
child_check junk answers (some q) =
    bind (first_cells q.nbr q.pqueue) λ pids. keep_live junk answers pids none

-- ---- prc_childkill ----

pub data Event : Type 0 where
  sigterm : ℕ → Bool → Event
  sigcheck : ℕ → Bool → Event
  sigkill : ℕ → Event
  reap : Event
  sleep : Event

abbrev pub Trace : Type 0
Trace = List Event

-- whether kill succeeds on a process, after what was done before
pub record World : Type 0 where
  pub terms : Trace → ℕ → Bool
  pub checks : Trace → ℕ → Bool

module _ (w : World) where
  -- the first loop; the flag is `overkill`
  unfoldable pub send_term : List ℕ → Bool → Trace → Bool × Trace
  send_term [] overkill t = (overkill, t)
  send_term (pid ∷ pids) overkill t =
      let skip = leb pid 1 in
      let b = w.terms t pid in
      send_term pids (if skip then overkill else overkill || b)
        (if skip then t else sigterm pid b ∷ t)

  -- the loop that looks which are still there
  unfoldable pub look : List ℕ → Bool → Trace → Bool × Trace
  look [] overkill t = (overkill, t)
  look (pid ∷ pids) overkill t =
      let skip = leb pid 1 in
      let b = w.checks t pid in
      look pids (if skip then overkill else overkill || b) (if skip then t else sigcheck pid b ∷ t)

  -- `while (overkill==true)`, for at most `delay` rounds
  unfoldable pub wait_exit : List ℕ → ℕ → Bool → Trace → Bool × Trace
  unfolding look
  wait_exit pids zero overkill t = (overkill, t)
  wait_exit pids (suc delay) overkill t =
      let r = look pids false (reap ∷ sleep ∷ t) in
      let rest = wait_exit pids delay r.0 r.1 in if overkill then rest else (false, t)

  -- the loop that kills what is still there
  unfoldable pub send_kill : List ℕ → Trace → Trace
  send_kill [] t = t
  send_kill (pid ∷ pids) t =
      let skip = leb pid 1 in
      let b = w.checks t pid in
      let u = sigcheck pid b ∷ t in
      send_kill pids (if skip then t else if b then sigkill pid ∷ u else u)

  -- prc_childkill on the processes of a list, with a delay of `more + 1` seconds
  unfoldable pub child_kill : List ℕ → ℕ → Trace → Trace
  unfolding send_term wait_exit send_kill
  child_kill pids more t =
      let r = send_term pids false (reap ∷ t) in
      let s = wait_exit pids (suc more) r.0 r.1 in reap ∷ (if s.0 then send_kill pids s.1 else s.1)
