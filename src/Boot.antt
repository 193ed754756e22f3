-- ===== src/Boot.antt =====
-- The supervisor of one container: boot of app/vzgot.c. Its phases run in order; `goto TOOBAD`
-- leaves the setup for phase 16, and `goto REBOOT` goes back to phase 2. The calls that it makes
-- and their answers are the trace; what a call answers is the world's choice, and may depend on
-- all that was called before.
pub mod Chain
pub mod Clearance
pub mod Ending
pub mod Failure
mod Examples
use vzgot.Base.{
  ℕ, zero, suc, ◌+◌, Bool, true, false, Option, none, some, List, [], ◌∷◌, ◌==◌, if◌then◌else◌,
}

-- the calls, named for the function or script called
pub data Op : Type 0 where
  load_config dive locking reset_flags script_boot pipe openpt grantpt unlockpt : Op
  set_cgroup set_sup_devices track_console clone set_cont_pid set_start move_to_cgroup : Op
  mapcontids script_ethup clearance attend script_ethdown unset_rootfs : Op
  wait_logger leave_cgroup clean_containers clean_supervisors unset_sup_devices unlocking : Op
  close : Option ℕ → Op

-- a call with its answer, `true` for success
abbrev pub Event : Type 0
Event = Op × Bool

-- newest call first
abbrev pub Trace : Type 0
Trace = List Event

pub record World : Type 0 where
  pub answer : Trace → Op → Bool
  -- what `cont_attend` returns
  pub exit_status : Trace → ℕ
  -- the descriptors that `pipe` and `posix_openpt` give
  pub read_end : Trace → ℕ
  pub write_end : Trace → ℕ
  pub master_fd : Trace → ℕ
  -- the slave's descriptor behind `track_console`, which a failure may leave as it was
  pub slave_fd : Trace → Option ℕ → Option ℕ

-- `none` is the descriptor -1
pub record Supervisor : Type 0 where
  pub status : ℕ
  pub sync0 : Option ℕ
  pub sync1 : Option ℕ
  pub slave : Option ℕ
  pub master : Option ℕ
  pub trace : Trace

-- `calloc` leaves the descriptors of `cont` at 0
abbrev pub initial : Supervisor
initial = record {
  status = 0;
  sync0 = some 0;
  sync1 = some 0;
  slave = some 0;
  master = none;
  trace = [];
}

-- the end of a chain of phases: through, or `goto TOOBAD`
pub data Out : Type 0 where
  through : Supervisor → Out
  toobad : Supervisor → Out

abbrev pub Cmd : Type 0
Cmd = Supervisor → Out

infixl 5 ◌>>◌
abbrev pub ◌>>◌ : Cmd → Cmd → Cmd
◌>>◌ m k s = elim (m s) [ through t ↦ k t | toobad t ↦ toobad t ]

abbrev pub log_call : Op → Bool → Supervisor → Supervisor
log_call op b s = record s { trace = (op, b) ∷ s.trace }

module _ (w : World) where
  -- a call whose failure is ignored
  abbrev pub tell : Op → Cmd
  tell op s = through (log_call op (w.answer s.trace op) s)

  -- a call whose failure is `goto TOOBAD`
  abbrev pub must : Op → Cmd
  must op s =
      let b = w.answer s.trace op in
      if b then through (log_call op b s) else toobad (log_call op b s)

  abbrev pub assign : (Supervisor → Supervisor) → Cmd
  assign f s = through (f s)

  -- phases 2 to 8: until the container's process exists, waiting on the pipe
  unfoldable pub prepare : Cmd
  prepare = do
    tell reset_flags
    must script_boot
    must pipe
    assign λ s. record s { sync0 = some (w.read_end s.trace); sync1 = some (w.write_end s.trace) }
    assign λ s. record s {
      master = if w.answer s.trace openpt then some (w.master_fd s.trace) else none;
    }
    must openpt
    must grantpt
    must unlockpt
    must set_cgroup
    must set_sup_devices
    assign λ s. record s { slave = w.slave_fd s.trace s.slave }
    must track_console
    must clone
    λ s. tell (close s.sync0) s

  -- phases 9 to 12: until the container may start
  unfoldable pub confine : Cmd
  confine = do
    must set_cont_pid
    must set_start
    tell move_to_cgroup
    tell mapcontids
    must script_ethup
    tell clearance
    λ s. tell (close s.sync1) s

  -- phases 13 to 15
  unfoldable pub supervise : Cmd
  supervise = do
    tell attend
    assign λ s. record s { status = w.exit_status s.trace }
    must script_ethdown
    tell unset_rootfs

  unfoldable pub setup : Cmd
  unfolding prepare confine supervise
  setup = do prepare; confine; supervise

  abbrev pub call : Op → Supervisor → Supervisor
  call op s = log_call op (w.answer s.trace op) s

  -- the loop of phase 16 closes `sync_pipe[1]`, whichever end its test is about
  unfoldable pub close_sync : Supervisor → Supervisor
  close_sync s =
      let close1 = λ (t : Supervisor). record (call (close t.sync1) t) { sync1 = none } in
      let first : Supervisor = elim s.sync0 [ none ↦ s | some _ ↦ close1 s ] in
      elim first.sync1 [ none ↦ first | some _ ↦ close1 first ]

  -- phases 16 and 17
  unfoldable pub cleanup : Supervisor → Supervisor
  unfolding close_sync
  cleanup s =
      let t = call (close s.slave) s in
      let t = call wait_logger (call (close t.master) t) in
      call clean_supervisors (call clean_containers (call leave_cgroup (close_sync t)))

  abbrev pub after_setup : Out → Supervisor
  after_setup (through s) = s
  after_setup (toobad s) = s

  -- phases 20 and 21
  unfoldable pub release : Supervisor → Supervisor
  release s = call unlocking s

  -- phases 18 and 19, behind phase 16 or its failure; `again` is `goto REBOOT`
  unfoldable pub finish : (Supervisor → Option Supervisor) → Supervisor → Option Supervisor
  finish again s =
      let t = call unset_sup_devices (cleanup s) in
      if w.answer (cleanup s).trace unset_sup_devices
      then (if t.status == 1
          then again t
          else if t.status == 2
          then some (release (record t { status = 0 }))
          else some (release t))
      else some t

  -- from REBOOT on; `none` means that the rounds ran out
  unfoldable pub rounds : ℕ → Supervisor → Option Supervisor
  rounds zero s = none
  rounds (suc fuel) s = finish (λ t. rounds fuel t) (after_setup (setup s))

  -- phase 1, then the rounds
  unfoldable pub lock_and_run : ℕ → Supervisor → Option Supervisor
  lock_and_run fuel s =
      let t = call dive s in
      let u = call locking t in
      if w.answer t.trace locking then rounds fuel u else some (record u { status = 1 })

  -- phase 0, then the others; a configuration that cannot be loaded is `goto TOOBAD`
  unfoldable pub boot : ℕ → Option Supervisor
  unfolding lock_and_run rounds finish release setup cleanup
  boot fuel =
      let s = call load_config initial in
      if w.answer [] load_config then lock_and_run fuel s else finish (λ t. rounds fuel t) s
