-- ===== src/Clone.antt =====
-- The container's first process: start_clone, doboot and setarch of app/vzgot.c. The phases of
-- doboot run in order and `goto TOOBAD` ends them with status 1; a successful `execvpe` replaces
-- the process. The calls with their answers are the trace; what a call answers is the world's
-- choice, and may depend on all that was called before.
pub mod Confine
pub mod Descriptors
mod Examples
use vzgot.Base.{
  ℕ, zero, suc, Bool, true, false, Option, none, some, List, [], ◌∷◌, ◌==◌, ltb, if◌then◌else◌, ℤ,
  pos, negsuc,
}
use vzgot.Text.{Bytes, codes, same}

-- ---- setarch ----

pub data Persona : Type 0 where
  linux32_3gb linux : Persona

abbrev pub personas : List (Bytes × Persona)
personas = (codes "i386", linux32_3gb) ∷ (codes "i686", linux32_3gb) ∷ (codes "x86_64", linux) ∷ []

-- the `for` loop over `pers`; `none` is the end of the table
unfoldable pub persona_in : List (Bytes × Persona) → Bytes → Option Persona
persona_in [] arch = none
persona_in ((name, p) ∷ table) arch = if same name arch then some p else persona_in table arch

unfoldable pub persona_of : Bytes → Option Persona
unfolding persona_in
persona_of = persona_in personas

-- ---- the calls ----

pub data Op : Type 0 where
  read_clearance : Op
  personality : Persona → Op
  unshare pdeathsig set_boot_time private_root set_rootfs_dir bind_rootfs : Op
  mount_proc mount_sys mount_run get_memfd bind_dev mount_cgroup : Op
  chdir_rootfs pivot_root chdir_root umount_old rmdir_old monitoring : Op
  sleep open_console open_null exec : Op
  dup2 : ℕ → ℕ → Op
  close : ℕ → Op

-- a call with its answer, `true` for success; the newest call comes first
abbrev pub Trace : Type 0
Trace = List (Op × Bool)

pub record World : Type 0 where
  pub answer : Trace → Op → Bool
  -- the descriptor that `open` gives
  pub new_fd : Trace → ℕ

-- what a descriptor of the process stands for
pub data File : Type 0 where
  inherited console null : File

-- the open descriptors; `none` is a closed one
abbrev pub Files : Type 0
Files = ℕ → Option File

abbrev pub put : ℕ → Option File → Files → Files
put fd f files n = if n == fd then f else files n

pub record Process : Type 0 where
  pub status : ℤ
  pub files : Files
  pub trace : Trace

-- the end of a chain of phases: through, `goto TOOBAD`, or the process was replaced
pub data Out : Type 0 where
  through : Process → Out
  toobad : Process → Out
  replaced : Process → Out

abbrev pub Cmd : Type 0
Cmd = Process → Out

infixl 5 ◌>>◌
abbrev pub ◌>>◌ : Cmd → Cmd → Cmd
◌>>◌ m k s = elim (m s) [ through t ↦ k t | toobad t ↦ toobad t | replaced t ↦ replaced t ]

abbrev pub log_call : Op → Bool → Process → Process
log_call op b s = record s { trace = (op, b) ∷ s.trace }

module _ (w : World) where
  -- a call whose failure is ignored
  abbrev pub tell : Op → Cmd
  tell op s = through (log_call op (w.answer s.trace op) s)

  -- a call whose failure is `goto TOOBAD`
  abbrev pub must : Op → Cmd
  must op s =
      let b = w.answer s.trace op in
      if b then through (log_call op b s) else toobad (log_call op b s)

  -- a call that leaves a status before `goto TOOBAD`
  abbrev pub must_or : ℤ → Op → Cmd
  must_or failed op s =
      let b = w.answer s.trace op in
      if b then through (log_call op b s) else toobad (record (log_call op b s) { status = failed })

  unfoldable pub set_persona : Option Persona → Cmd
  set_persona none s = toobad s
  set_persona (some p) s = must (personality p) s

  unfoldable pub set_arch : Bytes → Cmd
  unfolding set_persona
  set_arch arch s = set_persona (persona_of arch) s

  -- phases 2 to 16
  unfoldable pub confine : Cmd
  confine = do
    must_or (negsuc 1) unshare
    must pdeathsig
    must set_boot_time
    must private_root
    must set_rootfs_dir
    must bind_rootfs
    must mount_proc
    must mount_sys
    must mount_run
    must get_memfd
    must bind_dev
    must mount_cgroup
    must chdir_rootfs
    must pivot_root
    must chdir_root
    must umount_old
    must rmdir_old
    must monitoring

  -- `dup2` onto one descriptor: when it fails the table is as before
  unfoldable pub dup_to : ℕ → ℕ → Process → Process
  dup_to fd target s =
      let b = w.answer s.trace (dup2 fd target) in
      let t = log_call (dup2 fd target) b s in
      if b then record t { files = put target (s.files fd) s.files } else t

  unfoldable pub dup_std : ℕ → Process → Process
  unfolding dup_to
  dup_std fd s = dup_to fd 2 (dup_to fd 1 (dup_to fd 0 s))

  -- the descriptor is gone whatever `close` answers
  unfoldable pub close_fd : ℕ → Process → Process
  close_fd fd s = record (log_call (close fd) (w.answer s.trace (close fd)) s) {
    files = put fd none s.files;
  }

  -- behind an `open` that gave a descriptor
  unfoldable pub opened : Op → File → Process → Process
  opened op f s = record (log_call op true s) { files = put (w.new_fd s.trace) (some f) s.files }

  unfoldable pub to_null : Process → Process
  unfolding opened close_fd dup_std
  to_null s =
      let b = w.answer s.trace open_null in
      let fd = w.new_fd s.trace in
      if b then close_fd fd (dup_std fd (opened open_null null s)) else log_call open_null false s

  unfoldable pub to_console : Process → Process
  unfolding opened close_fd dup_std to_null
  to_console s =
      let b = w.answer s.trace open_console in
      let fd = w.new_fd s.trace in
      let t = dup_std fd (opened open_console console s) in
      if b then (if ltb 2 fd then close_fd fd t else t) else to_null (log_call open_console false s)

  unfoldable pub exec_init : Cmd
  exec_init s =
      let b = w.answer s.trace exec in
      if b then replaced (log_call exec b s) else toobad (log_call exec b s)

  -- phase 17
  unfoldable pub start_init : Cmd
  unfolding exec_init to_console
  start_init s = exec_init (to_console (log_call sleep (w.answer s.trace sleep) s))

  unfoldable pub phases : Bytes → Cmd
  unfolding set_arch confine start_init
  phases arch = do set_arch arch; confine; start_init

  -- TOOBAD sets the status and falls into the end
  abbrev pub leave : Out → Out
  leave (through s) = through s
  leave (toobad s) = through (record s { status = pos 1 })
  leave (replaced s) = replaced s

  -- `through` is the return, with the status of the process
  unfoldable pub doboot : Bytes → Cmd
  unfolding phases
  doboot arch s = leave (phases arch (record s { status = pos 0 }))

  -- ---- start_clone ----

  -- `through` is `_exit` with the status of the process
  unfoldable pub start_clone : Bytes → ℕ → ℕ → Cmd
  unfolding close_fd doboot
  start_clone arch slave_fd sync1 s =
      let t = close_fd sync1 (close_fd slave_fd s) in
      let b = w.answer t.trace read_clearance in
      let u = log_call read_clearance b t in
      if b then doboot arch u else through (record u { status = negsuc 0 })
