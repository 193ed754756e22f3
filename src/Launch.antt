-- ===== src/Launch.antt =====
-- The last steps of a supervisor, lib/unicnt.c: cnt_exit, cnt_launch, cnt_setstdio, cnt_initscript,
-- cnt_getarch and cnt_getdist.
pub mod Exit
pub mod Redirect
mod Examples
use vzgot.Base.{
  ℕ, zero, suc, Bool, true, false, ◌&&◌, Option, none, some, List, [], ◌∷◌, ◌==◌, if◌then◌else◌, ℤ,
  pos, negsuc,
}
use vzgot.Text.{Bytes, codes, same, getstr, clean_string}
use vzgot.Sysfs
use vzgot.Sysfs.{child, get_sysfs, cgr_supervisors, procs, number}

-- ---- cnt_exit ----

-- the calls; `move` is sys_move_to_cgroup to the group at the top
pub data Op : Type 0 where
  kill_0 kill_term kill_kill : ℕ → Op
  nap : ℕ → Op
  move : Op

abbrev pub Trace : Type 0
Trace = List (Op × Bool)

pub record World : Type 0 where
  pub answer : Trace → Op → Bool

module _ (w : World) where
  unfoldable pub call : Op → Trace → Bool × Trace
  call op t = let b = w.answer t op in (b, (op, b) ∷ t)

  unfoldable pub sure_kill : ℕ → Bool × Trace → Trace
  sure_kill cpid (true, t) = (call (kill_kill cpid) t).1
  sure_kill cpid (false, t) = t

  unfoldable pub kill_alive : ℕ → Bool × Trace → Trace
  kill_alive cpid (false, t) = t
  kill_alive cpid (true, t) =
      let u = (call (nap 20000) (call (kill_term cpid) t).1).1 in
      sure_kill cpid (call (kill_0 cpid) u)

  -- phase 0; no process is 0
  unfoldable pub stop_container : ℕ → Trace → Trace
  unfolding kill_alive sure_kill
  stop_container zero t = t
  stop_container (suc pid) t = kill_alive (suc pid) (call (kill_0 (suc pid)) t)

  unfoldable pub cnt_exit : ℕ → Trace → Bool × Trace
  unfolding stop_container
  cnt_exit cpid t =
      let moved = call move (stop_container cpid t) in (moved.0, (call (nap 10000) moved.1).1)

-- ---- cnt_launch ----

-- The answer to `mkdir` is true also where the directory exists; what `fclose` says is not looked
-- at.
unfoldable pub cnt_launch : Sysfs.World → Bytes → ℕ → Sysfs.Cmd
cnt_launch w contname pid =
    let dir = child (get_sysfs cgr_supervisors) contname in
    Sysfs.◌>>◌ (Sysfs.call w (Sysfs.mkdir dir 488)) (
      Sysfs.◌>>◌ (Sysfs.call w (Sysfs.open_file dir procs))
        (Sysfs.ignoring (Sysfs.call w (Sysfs.flush dir procs (number pid))) (λ t. (true, t))))

-- ---- cnt_setstdio ----

-- what a descriptor stands for
pub data File : Type 0 where
  inherited out_log err_log : File

abbrev pub Files : Type 0
Files = ℕ → Option File

abbrev pub put : ℕ → Option File → Files → Files
put fd f files n = if n == fd then f else files n

-- `none` is an error; dup2 onto 1 and 2
pub record Stdio : Type 0 where
  pub new_stdout : Option ℕ
  pub new_stderr : Option ℕ
  pub dups_stdout : Bool
  pub dups_stderr : Bool

-- phases 3 and 4; fclose(stdin) closes 0, and `freopen` keeps the descriptors 1 and 2
unfoldable pub put_stderr : Bool → ℕ → Files → Files
put_stderr true err files = put 0 none (put 2 (files err) files)
put_stderr false err files = put err none files

-- phases 2 and 3
unfoldable pub put_stdout : Stdio → ℕ → ℕ → Files → Files
unfolding put_stderr
put_stdout s out err files =
    if s.dups_stdout
    then put_stderr s.dups_stderr err (put out none (put 1 (files out) files))
    else put out none (put err none files)

-- phases 1 to 3, with the descriptor of phase 0
unfoldable pub open_stderr : Stdio → ℕ → Files → Files
unfolding put_stdout
open_stderr s out files = elim s.new_stderr [
  | none ↦ put out none files
  | some err ↦ put_stdout s out err (put err (some err_log) files)
]

unfoldable pub setstdio : Stdio → Bool → Files → Files
unfolding open_stderr
setstdio s true files = files
setstdio s false files = elim s.new_stdout [
  | none ↦ files
  | some out ↦ open_stderr s out (put out (some out_log) files)
]

-- ---- cnt_initscript ----

-- Whether the texts could be made and the pipe be opened, and what `pclose` returns: -1, or the
-- exit status of the script.
unfoldable pub initscript : Bool → Bool → Bool → ℤ → Bool
initscript params command opens (pos status) = params && command && opens
initscript params command opens (negsuc n) = false

-- ---- cnt_getarch, cnt_getdist ----

abbrev pub availarch : List Bytes
availarch = codes "i386" ∷ codes "i686" ∷ codes "x86_64" ∷ []

unfoldable pub find_arch : List Bytes → Bytes → Bytes
find_arch [] buffer = codes "UNK?"
find_arch (arch ∷ archs) buffer = if same arch buffer then arch else find_arch archs buffer

-- the first line of the file, with `#` for a comment
abbrev pub first_line : Option Bytes → Option Bytes
first_line none = none
first_line (some file) = elim (getstr 200 b'#' file) [ none ↦ none | some (line, rest) ↦ some line ]

unfoldable pub cnt_getarch : Option Bytes → Bytes
unfolding find_arch
cnt_getarch file = elim (first_line file) [
  | none ↦ codes "UNK?"
  | some buffer ↦ find_arch availarch (clean_string buffer)
]

-- without a line the buffer is left empty
unfoldable pub cnt_getdist : Option Bytes → Bytes
cnt_getdist none = codes "no dist"
cnt_getdist (some file) = elim (first_line (some file)) [
  | none ↦ []
  | some line ↦ clean_string line
]
