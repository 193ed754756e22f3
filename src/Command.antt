-- ===== src/Command.antt =====
-- The commands of app/vzgot.c behind the option loop: action and the procedures that it chooses
-- from. What the scripts, the container and the system answer is the world's choice; the trace
-- keeps the calls. `boot` is in Boot; here it is one call with its status, as are the scripts.
pub mod Main
pub mod Options
pub mod Params
pub mod Dispatch
pub mod Shutdown
pub mod Sigkill
mod Examples
use vzgot.Base.{
  ℕ, zero, suc, ◌+◌, ◌-◌, Bool, true, false, not, Option, none, some, List, [], ◌∷◌, ◌++◌, ◌==◌,
  ltb, get_elem?, if◌then◌else◌, length,
}
use vzgot.Text.{Bytes, codes, Voc, getvoca}

pub data Script : Type 0 where
  vzon vzoff vznew vzdest vzfree vzlist vzmove vzup vzsleep vzstand vzrbld : Script

pub data Event : Type 0 where
  usage : Event
  loadconfig : Option Bytes → Bool → Event
  get_cont_pid : ℕ → Event
  -- cnt_injectcmd on a process with the command line, and whether it returned 0
  injectcmd : ℕ → Bytes → Bool → Event
  initscript : Script → Bytes → Bool → Event
  rm_cont_pid : Event
  slept : Event
  -- popen of `ps | wc -l`: failed, or the number read, 0 when none could be read
  counted : Option ℕ → Event
  sigkill : ℕ → Event
  execv : List Bytes → Bool → Event
  booted : List Bytes → ℕ → Event

abbrev pub Trace : Type 0
Trace = List Event

pub record World : Type 0 where
  pub loads : Trace → Option Bytes → Bool
  pub pids : Trace → ℕ
  pub injects : Trace → Bool
  pub scripts : Trace → Bool
  pub counts : Trace → Option ℕ
  pub execs : Trace → Bool
  pub boots : Trace → List Bytes → ℕ
  pub libexec : Bytes

-- `none` is a process that execv has replaced
abbrev pub Result : Type 0
Result = Option ℕ × Trace

-- argv[0], or NULL
abbrev pub name : List Bytes → Option Bytes
name [] = none
name (arg ∷ args) = some arg

-- argv+1
abbrev pub others : List Bytes → List Bytes
others [] = []
others (arg ∷ args) = args

-- `strcat(params,argv[i])`, `strcat(params," ")` for each
unfoldable pub params : List Bytes → Bytes
params [] = []
params (arg ∷ args) = arg ++ b' ' ∷ params args

-- what power_off has executed in the container
abbrev pub poweroff : List Bytes
poweroff = codes "PATH=/sbin:/usr/sbin:/bin:/usr/bin poweroff" ∷ []

-- `argv[0]==NULL` or an empty name
unfoldable pub no_name : Option Bytes → Bool
no_name none = true
no_name (some []) = true
no_name (some (c ∷ s)) = false

module _ (w : World) where
  -- vzexec, phases 2 and 3
  unfoldable pub exec_in : List Bytes → Trace → ℕ × Trace
  exec_in args t =
      let pid = w.pids t in
      let u = get_cont_pid pid ∷ t in
      let b = w.injects u in
      let v = injectcmd pid (params args) b ∷ u in
      if pid == 0 then (0, u) else if b then (0, v) else (2, v)

  -- vzexec on argv[0] and the arguments from argv[1] on
  unfoldable pub vzexec : Option Bytes → List Bytes → Trace → ℕ × Trace
  unfolding no_name exec_in
  vzexec contname args t =
      let b = w.loads t contname in
      let u = loadconfig contname b ∷ t in
      if no_name contname then (1, t) else if b then exec_in args u else (0, u)

  -- cont_shutdown, phase 4: the loop with `i` rounds left
  unfoldable pub full_stop : ℕ → ℕ → Trace → ℕ × Trace
  full_stop zero status t = (status, t)
  full_stop (suc i) status t =
      let r = w.counts t in
      let u = counted r ∷ t in
      let rest = full_stop i status (slept ∷ u) in
      elim r [ none ↦ (status, u) | some remaining ↦ if ltb remaining 2 then (0, u) else rest ]

  -- cont_shutdown, phases 3 and 4, with the status of phase 2
  unfoldable pub wait_stop : ℕ → ℕ → Trace → ℕ × Trace
  unfolding full_stop
  wait_stop cntpid status t =
      let u = slept ∷ t in
      let r = full_stop 15 status u in
      if cntpid == 1 then (status, u) else (r.0, sigkill cntpid ∷ r.1)

  -- cont_shutdown, phase 2 on
  unfoldable pub power_off : Option Bytes → ℕ → Trace → ℕ × Trace
  unfolding vzexec wait_stop
  power_off contname cntpid t =
      let r = vzexec contname poweroff t in
      let done = wait_stop cntpid r.0 r.1 in if r.0 == 0 then done else (r.0, rm_cont_pid ∷ r.1)

  unfoldable pub cont_shutdown : Option Bytes → Trace → ℕ × Trace
  unfolding power_off
  cont_shutdown contname t =
      let b = w.loads t contname in
      let u = loadconfig contname b ∷ t in
      let pid = w.pids u in
      let v = get_cont_pid pid ∷ u in
      if not b then (1, u) else if pid == 0 then (1, v) else power_off contname pid v

  -- vzstatus; `status` counts the phases begun
  unfoldable pub vzstatus : List Bytes → Trace → Result
  unfolding no_name
  vzstatus argv t =
      let newargs = (w.libexec ++ codes "/bin/vzstat") ∷ argv in
      let b = w.execs t in
      let u = execv newargs b ∷ t in
      if no_name (name argv) then (some 2, t) else if b then (none, u) else (some 3, u)

  unfoldable pub vzscript : Script → List Bytes → Trace → ℕ × Trace
  vzscript script argv t =
      let b = w.scripts t in (if b then 0 else 1, initscript script (params argv) b ∷ t)

  -- the text of the format "%s" or "%s %s"
  unfoldable pub create_args : List Bytes → Bytes
  create_args [] = []
  create_args (a ∷ []) = a
  create_args (a ∷ b ∷ argv) = a ++ b' ' ∷ b

  unfoldable pub create : List Bytes → Trace → ℕ × Trace
  unfolding create_args
  create argv t =
      let b = w.scripts t in
      let u = initscript vznew (create_args argv) b ∷ t in
      if ltb (length argv) 1 then (1, t) else if b then (0, u) else (2, u)

  -- a script that fails leaves the status at 0
  unfoldable pub destroy : List Bytes → Trace → ℕ × Trace
  destroy [] t = (1, t)
  destroy (contname ∷ argv) t = (0, initscript vzdest contname (w.scripts t) ∷ t)

  -- the status of cont_shutdown is only reported
  unfoldable pub doreboot : List Bytes → Trace → ℕ × Trace
  unfolding cont_shutdown
  doreboot argv t =
      let r = cont_shutdown (name argv) t in
      let u = slept ∷ r.1 in let status = w.boots u argv in (status, booted argv status ∷ u)

-- the codes of action's enumeration, in its order
pub data Action : Type 0 where
  a_boot a_onboot a_offboot a_reboot a_shutdown a_create a_destroy a_enter a_exec a_freeze : Action
  a_list a_movefrom a_online a_sleep a_standby a_status a_rebuild a_unknown : Action

abbrev entry : ℕ → Bytes → Voc
entry code key = record { code = code; key = key }

abbrev pub vocaction : List Voc
vocaction =
    entry 0 (codes "boot")
    ∷ entry 2 (codes "offboot")
    ∷ entry 1 (codes "onboot")
    ∷ entry 10 (codes "list")
    ∷ entry 3 (codes "reboot")
    ∷ entry 8 (codes "exec")
    ∷ entry 7 (codes "enter")
    ∷ entry 9 (codes "freeze")
    ∷ entry 5 (codes "create")
    ∷ entry 12 (codes "online")
    ∷ entry 6 (codes "destroy")
    ∷ entry 14 (codes "standby")
    ∷ entry 11 (codes "movefrom")
    ∷ entry 4 (codes "shutdown")
    ∷ entry 13 (codes "sleep")
    ∷ entry 15 (codes "status")
    ∷ entry 16 (codes "rebuild")
    ∷ []

-- the enumeration by its numbers
unfoldable pub action_of : ℕ → Action
action_of code =
    elim (get_elem?
      (a_boot ∷ a_onboot ∷ a_offboot ∷ a_reboot ∷ a_shutdown ∷ a_create ∷ a_destroy ∷ a_enter
        ∷ a_exec ∷ a_freeze ∷ a_list ∷ a_movefrom ∷ a_online ∷ a_sleep ∷ a_standby ∷ a_status
        ∷ a_rebuild ∷ [])
      code) [ none ↦ a_unknown | some a ↦ a ]

abbrev pub known : ℕ × Trace → Result
known (status, t) = (some status, t)

module _ (w : World) where
  -- `switch (voc->code)`, on argv+1
  unfoldable pub proceed : Action → List Bytes → Trace → Result
  unfolding vzexec cont_shutdown vzstatus vzscript create destroy doreboot
  proceed a_boot argv t = let status = w.boots t argv in (some status, booted argv status ∷ t)
  proceed a_onboot argv t = known (vzscript w vzon argv t)
  proceed a_offboot argv t = known (vzscript w vzoff argv t)
  proceed a_reboot argv t = known (doreboot w argv t)
  proceed a_shutdown argv t = known (cont_shutdown w (name argv) t)
  proceed a_status argv t = vzstatus w argv t
  proceed a_create argv t = known (create w argv t)
  proceed a_destroy argv t = known (destroy w argv t)
  proceed a_enter argv t = known (vzexec w (name argv) (codes "/bin/sh" ∷ []) t)
  proceed a_exec argv t = known (vzexec w (name argv) (others argv) t)
  proceed a_freeze argv t = known (vzscript w vzfree argv t)
  proceed a_list argv t = known (vzscript w vzlist argv t)
  proceed a_movefrom argv t = known (vzscript w vzmove argv t)
  proceed a_online argv t = known (vzscript w vzup argv t)
  proceed a_sleep argv t = known (vzscript w vzsleep argv t)
  proceed a_standby argv t = known (vzscript w vzstand argv t)
  proceed a_rebuild argv t = known (vzscript w vzrbld argv t)
  proceed a_unknown argv t = (some 1, usage ∷ t)

  unfoldable pub action : List Bytes → Trace → Result
  unfolding action_of proceed
  action [] t = (some 1, usage ∷ t)
  action (word ∷ argv) t = proceed (action_of (getvoca 17 vocaction word).0) argv t
