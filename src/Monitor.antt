-- ===== src/Monitor.antt =====
-- The watch inside a container, lib/unimon.c: check_binding, which limits the mounts that are made
-- again, do_check_mounts, do_check_pids and mon_monitoring. Times are in seconds, of type time_t and not negative.
pub mod Window
pub mod Pids
pub mod Watch
mod Examples
use vzgot.Base.{
  ℕ, zero, suc, ◌+◌, Bool, true, false, ◌&&◌, not, Option, none, some, List, [], ◌∷◌, ◌++◌, length,
  ltb, leb, ◌==◌, if◌then◌else◌, take,
}
use vzgot.Text.{Bytes, same, c_str}

-- ---- check_binding ----

abbrev pub trygap : ℕ
trygap = 1800

-- MXTRY
abbrev pub mxtry : ℕ
mxtry = 50

-- phase 0: the array `last` is the list of its first `count` times, the oldest first
unfoldable pub purge : ℕ → List ℕ → List ℕ
purge curtime [] = []
purge curtime (t ∷ last) =
    let rest = purge curtime last in if leb (t + trygap) curtime then rest else t ∷ last

-- phase 1, where the array is full
unfoldable pub is_worn : ℕ → List ℕ → Bool
is_worn curtime [] = false
is_worn curtime (t ∷ last) = ltb curtime (t + trygap)

-- phases 1 and 2
unfoldable pub note_binding : ℕ → List ℕ → Bool × List ℕ
unfolding is_worn
note_binding curtime last =
    if ltb (length last + 1) mxtry
    then (true, last ++ curtime ∷ [])
    else if is_worn curtime last
    then (false, last)
    else (true, last ++ curtime ∷ [])

unfoldable pub check_binding : ℕ → List ℕ → Bool × List ℕ
unfolding purge note_binding
check_binding curtime last = note_binding curtime (purge curtime last)

-- ---- do_check_mounts ----

-- The devices of apl_get_specdevs in their order, each with the time of the call of check_binding if
-- sys_check_remount returns true.
unfoldable pub do_check_mounts : List (Option ℕ) → List ℕ → Bool × List ℕ
unfolding check_binding
do_check_mounts [] last = (true, last)
do_check_mounts (none ∷ devices) last = do_check_mounts devices last
do_check_mounts (some curtime ∷ devices) last =
    let (good, last') = check_binding curtime last in
    let (isok, last'') = do_check_mounts devices last' in (good && isok, last'')

-- ---- do_check_pids ----

-- What the calls give: `pread` the bytes of ns_last_pid, at least one, `none` if it or the opening
-- fails; `pwrite` how many of the bytes are written.
pub record Calls : Type 0 where
  pub last_pid : Option Bytes
  pub opens_device : Bool
  pub written : Bytes → ℕ

-- the static `prv_val`, and /dev/lastpid
pub record Shown : Type 0 where
  pub prv_val : Bytes
  pub device : Bytes

-- phases 3 and 4, with the bytes read; the device is truncated when it is opened
unfoldable pub store_pid : Calls → Bytes → Shown → Bool × Shown
store_pid c cur_val s =
    if c.opens_device
    then (
      true,
      record {
        prv_val = if c.written cur_val == length cur_val then c_str cur_val else s.prv_val;
        device = take (c.written cur_val) cur_val;
      },
    )
    else (false, s)

-- `cur_val` has room for 15 bytes
unfoldable pub do_check_pids : Calls → Shown → Bool × Shown
unfolding store_pid
do_check_pids c s = elim c.last_pid [
  | none ↦ (false, s)
  | some line ↦
      if same (c_str (take 15 line)) s.prv_val then (true, s) else store_pid c (take 15 line) s
]

-- ---- mon_monitoring ----

-- A SIGTERM: whether one comes before what a check returns is stored, and whether one comes after
-- that and before the next test of the loop, so also while the code sleeps.
pub record Sigterm : Type 0 where
  pub before : Bool
  pub after : Bool

-- what one round of `poll` gives, with what the check behind it meets; a signal that interrupts
-- `poll` makes it fail
pub data Event : Type 0 where
  broken : Event
  quiet : Sigterm → Calls → Event
  changed : Sigterm → List (Option ℕ) → Event

-- the static variables of the two checks, and the device
pub record State : Type 0 where
  pub last : List ℕ
  pub shown : Shown

-- `keep_running=isok`, whatever it was
abbrev pub stored_over : Bool → Bool → Bool
stored_over keep_running isok = isok

-- keep_running: the handler sets it to false, what a check returns is stored over it, and the handler
-- may set it to false again
abbrev pub store_keep : Bool → Sigterm → Bool → Bool
store_keep keep_running sigterm isok =
    let interrupted = keep_running && not sigterm.before in
    stored_over interrupted isok && not sigterm.after

unfoldable pub round : Event → Bool × State → Bool × State
unfolding do_check_mounts do_check_pids
round broken (keep_running, s) = (false, s)
round (quiet sigterm c) (keep_running, s) =
    let (isok, shown) = do_check_pids c s.shown in
    (store_keep keep_running sigterm isok, record s { shown = shown })
round (changed sigterm devices) (keep_running, s) =
    let (isok, last) = do_check_mounts devices s.last in
    (store_keep keep_running sigterm isok, record s { last = last })

-- phase 5; `none` while it goes on behind the last event
unfoldable pub watch : List Event → Bool × State → Option (Bool × State)
unfolding round
watch events (false, s) = some (false, s)
watch [] (true, s) = none
watch (event ∷ events) (true, s) = watch events (round event (true, s))

-- `opens` is whether /proc/self/mountinfo is opened; `devices` and `sigterm` are for the first check
unfoldable pub mon_monitoring :
    Bool → Sigterm → List (Option ℕ) → List Event → State → Option (Bool × State)
unfolding do_check_mounts watch
mon_monitoring opens sigterm devices events s =
    let (isok, last) = do_check_mounts devices s.last in
    let keep_running = store_keep true sigterm isok in
    if opens
    then watch events (keep_running, record s { last = last })
    else some (keep_running, record s { last = last })
