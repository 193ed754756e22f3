-- ===== src/Rootfs.antt =====
-- The directories of a container's root, lib/unicnt.c: do_mkdir, cnt_set_rootfs_dir and
-- cnt_unset_rootfs_dir. The state is what stands below rootfs under each name, with its mode, and
-- what is mounted there; which system calls fail is a parameter.
pub mod Populate
pub mod Unmount
mod Examples
use vzgot.Base.{
  ℕ, zero, suc, Bool, true, false, ◌&&◌, Option, none, some, List, [], ◌∷◌, if◌then◌else◌,
}
use vzgot.Text.{Bytes, codes, same}

-- a directory or another file, with its mode, or a symbolic link with the name that it leads to
pub data Entry : Type 0 where
  directory : ℕ → Entry
  file : ℕ → Entry
  link : Bytes → Entry

abbrev pub Dirs : Type 0
Dirs = Bytes → Option Entry

abbrev pub put_dir : Bytes → Option Entry → Dirs → Dirs
put_dir name entry dirs x = if same x name then entry else dirs x

pub record World : Type 0 where
  -- `mkdir` under a name that is free succeeds, and `chmod` of what a name leads to
  pub makes : Bytes → Bool
  pub changes : Bytes → Bool
  -- the mode with which `mkdir` creates a directory: without the bits of the umask
  pub masked : ℕ → ℕ

-- ---- do_mkdir ----

module _ (w : World) where
  -- `chmod` of what stands under the name, with `n` links left to follow; a link that leads nowhere
  -- or too many of them are errors
  unfoldable pub change_mode : ℕ → Option Entry → Bytes → ℕ → Dirs → Bool × Dirs
  change_mode n none name mode dirs = (false, dirs)
  change_mode n (some (directory old)) name mode dirs =
      if w.changes name then (true, put_dir name (some (directory mode)) dirs) else (false, dirs)
  change_mode n (some (file old)) name mode dirs =
      if w.changes name then (true, put_dir name (some (file mode)) dirs) else (false, dirs)
  change_mode zero (some (link target)) name mode dirs = (false, dirs)
  change_mode (suc n) (some (link target)) name mode dirs =
      change_mode n (dirs target) target mode dirs

  unfoldable pub make_new : Bytes → ℕ → Dirs → Bool × Dirs
  make_new name mode dirs =
      if w.makes name
      then (true, put_dir name (some (directory (w.masked mode))) dirs)
      else (false, dirs)

  -- With what is there under that name: EEXIST does not say that it is a directory. The kernel
  -- follows 40 links.
  unfoldable pub make_over : Option Entry → Bytes → ℕ → Dirs → Bool × Dirs
  make_over none name mode dirs = make_new name mode dirs
  make_over (some old) name mode dirs = change_mode 40 (some old) name mode dirs

  unfoldable pub do_mkdir : Bytes → ℕ → Dirs → Bool × Dirs
  do_mkdir name mode dirs = make_over (dirs name) name mode dirs

  -- the `for` loop, with `isok`
  unfoldable pub make_all : List (Bytes × ℕ) → Bool → Dirs → Bool × Dirs
  make_all [] isok dirs = (isok, dirs)
  make_all ((name, mode) ∷ needed) isok dirs =
      let (made, dirs') = do_mkdir name mode dirs in make_all needed (made && isok) dirs'

-- 01777 is 1023, 0755 is 493 and 0555 is 365
abbrev pub needed : List (Bytes × ℕ)
needed =
    (codes "dev", 493)
    ∷ (codes "old_root", 493)
    ∷ (codes "proc", 365)
    ∷ (codes "run", 1023)
    ∷ (codes "sys", 365)
    ∷ (codes "tmp", 1023)
    ∷ []

unfoldable pub set_rootfs_dir : World → Dirs → Bool × Dirs
unfolding make_all
set_rootfs_dir w dirs = make_all w needed true dirs

-- ---- cnt_unset_rootfs_dir ----

abbrev pub Mounts : Type 0
Mounts = Bytes → Bool

-- the answers of `umount2`; `not_mounted` is EINVAL
pub data Umount : Type 0 where
  done not_mounted failed : Umount

abbrev pub take_off : Bytes → Mounts → Mounts
take_off name mounts x = if same x name then false else mounts x

-- the kernel's answer: EINVAL if and only if nothing is mounted; `busy` is any other error
abbrev pub umount_says : Bool → Bool → Umount
umount_says busy mounted = if busy then failed else if mounted then done else not_mounted

abbrev pub unmounts : List Bytes
unmounts = codes "run" ∷ codes "sys" ∷ codes "proc" ∷ []

unfoldable pub after_umount : Umount → Bytes → (Mounts → Bool × Mounts) → Mounts → Bool × Mounts
after_umount done name others mounts = others (take_off name mounts)
after_umount not_mounted name others mounts = others mounts
after_umount failed name others mounts = (false, mounts)

-- the `for` loop, which an error ends
unfoldable pub unmount_all : (Bytes → Bool) → List Bytes → Mounts → Bool × Mounts
unmount_all busy [] mounts = (true, mounts)
unmount_all busy (name ∷ names) mounts =
    after_umount (umount_says (busy name) (mounts name)) name (λ m. unmount_all busy names m) mounts

unfoldable pub unset_rootfs_dir : (Bytes → Bool) → Mounts → Bool × Mounts
unset_rootfs_dir busy mounts = unmount_all busy unmounts mounts
