-- ===== src/Cgroup.antt =====
-- The control groups of a container at its start: cnt_set_cgroup of lib/unicnt.c. do_mkdir, which
-- Rootfs models, is one call here.
pub mod Guard
mod Examples
use vzgot.Base.{ℕ, Bool, true, false, Option, List, [], ◌∷◌}
use vzgot.Text.{Bytes, codes}
use vzgot.Sysfs.{
  Dir, child, subtree_control, mkdir, Trace, World, Cmd, ◌>>◌, ignoring, get_sysfs, cgr_vzgot,
  cgr_supervisors, cgr_containers, call, write_str, move_to_cgroup,
}
use vzgot.Limits.{Doubles, Host, cgroup_limits}

abbrev pub privs : Bytes
privs = codes "+memory +pids +cpu +cpuset"

module _ (w : World) (contname : Bytes) where
  -- phases 0 to 6
  unfoldable pub make_groups : Cmd
  make_groups = do
    call w (mkdir (get_sysfs cgr_vzgot) 493)
    write_str w (get_sysfs cgr_vzgot) subtree_control privs
    call w (mkdir (get_sysfs cgr_supervisors) 493)
    call w (mkdir (get_sysfs cgr_containers) 493)
    write_str w (get_sysfs cgr_containers) subtree_control privs
    call w (mkdir (child (get_sysfs cgr_supervisors) contname) 493)
    call w (mkdir (child (get_sysfs cgr_containers) contname) 493)

  unfoldable pub set_cgroup : Doubles → Host → ℕ → Cmd
  unfolding make_groups
  set_cgroup d h pid = do
    make_groups
    cgroup_limits d w h contname
    ignoring (move_to_cgroup w contname cgr_supervisors pid) (λ t. (true, t))
