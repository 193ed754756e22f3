-- ===== src/Sysfs.antt =====
-- The control groups below /sys/fs/cgroup, lib/utlsys.c: sys_get_sysfs, sys_write_str,
-- sys_write_sys_long, sys_move_to_cgroup, sys_attach_to_cgroup, sys_pin_cgroup_ns,
-- sys_clean_all_cgroup with cgroup_clean_recursive and rm_cgroup_item. The system calls and their
-- answers are the trace; what a call answers is the world's choice, and may depend on all that was
-- called before. A path is its directory and the name of the file there; names are supposed to fit
-- the buffers.
pub mod Calm
pub mod Move
mod Examples
use vzgot.Base.{
  ℕ, zero, suc, Bool, true, false, Option, none, some, List, [], ◌∷◌, ◌==◌, ℤ, pos, negsuc,
}
use vzgot.Text.{Bytes, codes}

-- CGRENU
pub data Ext : Type 0 where
  cgr_top cgr_vzgot cgr_supervisors cgr_containers cgr_unknown : Ext

pub data Dir : Type 0 where
  top vz_root supervisors containers tmp : Dir
  child : Dir → Bytes → Dir

-- the files that the code writes in such a directory
pub data Register : Type 0 where
  procs subtree_control kill memory_max swap_max pids_max cpu_weight cpu_max : Register

-- what is written: a text, or a number by `%llu` or `%d`
pub data Datum : Type 0 where
  text : Bytes → Datum
  number : ℕ → Datum

pub data Op : Type 0 where
  open_file : Dir → Register → Op
  write : Dir → Register → Datum → Op
  -- `access` for reading
  probe : Dir → Register → Op
  -- the `fclose` that hands the kernel what was printed
  flush : Dir → Register → Datum → Op
  pin : ℕ → Op
  mkdir : Dir → ℕ → Op
  rmdir : Bytes → Op
  sleep : Op
  -- functions of lib/utlsys.c on the processors, with the value of their variable
  setcpuset set_cont_weight set_cont_usage : Bytes → Op

-- a call with its answer, `true` for success; the newest call comes first
abbrev pub Trace : Type 0
Trace = List (Op × Bool)

pub record World : Type 0 where
  pub answer : Trace → Op → Bool

-- what a function returns, and the trace behind it
abbrev pub Ret : Type 0
Ret = Bool × Trace

abbrev pub Cmd : Type 0
Cmd = Trace → Ret

abbrev pub go_on : Ret → Cmd → Ret
go_on (true, t) k = k t
go_on (false, t) k = (false, t)

-- goes on if the first succeeds
infixl 5 ◌>>◌
abbrev pub ◌>>◌ : Cmd → Cmd → Cmd
◌>>◌ m k t = go_on (m t) k

-- goes on in any case
abbrev pub ignoring : Cmd → Cmd → Cmd
ignoring m k t = k (m t).1

-- the value of an `int` as a `_Bool`
abbrev pub truth : ℤ → Bool
truth (pos zero) = false
truth (pos (suc n)) = true
truth (negsuc n) = true

-- ---- sys_get_sysfs ----

unfoldable pub get_sysfs : Ext → Dir
get_sysfs cgr_top = top
get_sysfs cgr_vzgot = vz_root
get_sysfs cgr_supervisors = supervisors
get_sysfs cgr_containers = containers
get_sysfs cgr_unknown = tmp

module _ (w : World) where
  unfoldable pub call : Op → Cmd
  call op t = let b = w.answer t op in (b, (op, b) ∷ t)

  -- the phases of sys_write_str and of sys_write_sys_long: no failure reaches what is returned
  unfoldable pub open_and_write : Bool → Dir → Register → Datum → Cmd
  open_and_write result dir file datum =
      ignoring (call (open_file dir file) >> call (write dir file datum)) (λ t. (result, t))

  -- `status` stays -1
  unfoldable pub write_str : Dir → Register → Bytes → Cmd
  unfolding open_and_write
  write_str dir file str = open_and_write (truth (negsuc 0)) dir file (text str)

  -- `isok` is true from the start
  unfoldable pub write_sys_long : Dir → Register → ℕ → Cmd
  unfolding open_and_write
  write_sys_long dir file tostore = open_and_write true dir file (number tostore)

  -- ---- sys_move_to_cgroup ----

  -- phases 2 and 3
  unfoldable pub join_group : Dir → ℕ → Cmd
  join_group dir pid = call (open_file dir procs) >> call (flush dir procs (number pid))

  unfoldable pub move_to_cgroup : Bytes → Ext → ℕ → Cmd
  unfolding join_group get_sysfs
  move_to_cgroup contname cgr_top pid = join_group (get_sysfs cgr_top) pid
  move_to_cgroup contname cgr_supervisors pid =
      join_group (child (get_sysfs cgr_supervisors) contname) pid
  move_to_cgroup contname cgr_containers pid =
      join_group (child (get_sysfs cgr_containers) contname) pid
  move_to_cgroup contname cgr_vzgot pid = λ t. (false, t)
  move_to_cgroup contname cgr_unknown pid = λ t. (false, t)

  -- ---- sys_attach_to_cgroup, sys_pin_cgroup_ns ----

  -- `isok` is set where every phase ends, 999 too
  unfoldable pub attach_to_cgroup : Bytes → ℕ → Cmd
  unfolding open_and_write
  attach_to_cgroup contname cpid =
      open_and_write true (child (get_sysfs cgr_containers) contname) procs (number cpid)

  unfoldable pub pin_cgroup_ns : ℕ → Cmd
  pin_cgroup_ns cpid = call (pin cpid)

  -- ---- sys_clean_all_cgroup ----

  -- the callback of `nftw`; only a directory, behind what it contains, is removed
  unfoldable pub rm_cgroup_item : Bool × Bytes → Cmd
  rm_cgroup_item (true, fpath) = call (rmdir fpath)
  rm_cgroup_item (false, fpath) = λ t. (true, t)

  -- `nftw` on the items in the order of its walk, until the callback fails
  unfoldable pub walk : List (Bool × Bytes) → Cmd
  walk [] = λ t. (true, t)
  walk (item ∷ items) = rm_cgroup_item item >> walk items

  -- `isok` is set only if `nftw` fails; `junk` is what it holds before
  unfoldable pub clean_recursive : Bool → List (Bool × Bytes) → Dir → Cmd
  unfolding walk
  clean_recursive junk items dir =
      ignoring (write_str dir kill (codes "1"))
        (ignoring (call sleep) (walk items >> λ t. (junk, t)))

  unfoldable pub clean_all_cgroup : Bool → List (Bool × Bytes) → Bytes → Ext → Cmd
  unfolding clean_recursive
  clean_all_cgroup junk items contname cgr_containers =
      clean_recursive junk items (child (get_sysfs cgr_containers) contname)
  clean_all_cgroup junk items contname cgr_supervisors =
      clean_recursive junk items (child (get_sysfs cgr_supervisors) contname)
  clean_all_cgroup junk items contname cgr_top = λ t. (false, t)
  clean_all_cgroup junk items contname cgr_vzgot = λ t. (false, t)
  clean_all_cgroup junk items contname cgr_unknown = λ t. (false, t)
