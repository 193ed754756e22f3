-- ===== src/Rootfs/Examples.antt =====
-- A root file system, and the theorems on it.
use vzgot.Base.{◌≡◌, ◌==◌, refl, Bool, true, false, none, some, if◌then◌else◌, All}
use vzgot.Text.{Bytes, codes, same}
use vzgot.Rootfs.{
  directory, Dirs, World, make_all, do_mkdir, make_over, make_new, change_mode, needed,
  set_rootfs_dir, Mounts, unset_rootfs_dir, unmount_all, after_umount,
}
use vzgot.Rootfs.Populate.{Avoids, AllPlain, new_dir, set_rootfs_dir-modes}

-- the umask takes 01777 to 01755
abbrev world : World
world = record {
  makes = λ name. true;
  changes = λ name. true;
  masked = λ mode. if mode == 1023 then 1005 else mode;
}

abbrev only_tmp : Dirs
only_tmp name = if same name (codes "tmp") then some (directory 448) else none

only_tmp-AllPlain : AllPlain world needed only_tmp
unfolding same
only_tmp-AllPlain = (tt, (tt, (tt, (tt, (tt, (tt, tt))))))

all_made : (set_rootfs_dir world only_tmp).0 ≡ true
unfolding set_rootfs_dir make_all do_mkdir make_over make_new change_mode same
all_made = refl

set_rootfs_dir-modes_example :
    All
      (λ e. (set_rootfs_dir world only_tmp).1 e.0 ≡ some (new_dir world (only_tmp e.0) e.1))
      needed
    × ((x : Bytes) → Avoids x needed → (set_rootfs_dir world only_tmp).1 x ≡ only_tmp x)
set_rootfs_dir-modes_example = set_rootfs_dir-modes world only_tmp only_tmp-AllPlain all_made

abbrev sys_busy : Bytes → Bool
sys_busy = same (codes "sys")

abbrev all_mounted : Mounts
all_mounted name = true

sys_test : (unset_rootfs_dir sys_busy all_mounted).0 ≡ false
unfolding unset_rootfs_dir unmount_all after_umount same
sys_test = refl
