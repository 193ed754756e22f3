-- ===== src/Remount.antt =====
-- The mount of one file or directory over another, lib/utlsys.c: sys_check_remount. The kernel's
-- mounts are a parameter.
pub mod Again
mod Examples
use vzgot.Base.{ℕ, Bool, true, false, ◌&&◌, Option, none, some, List, [], ◌∷◌, ◌==◌, if◌then◌else◌}

-- the fields of `struct stat` that are compared
pub record Inode : Type 0 where
  pub dev : ℕ
  pub ino : ℕ

-- the calls of `mount`: MS_BIND, then MS_BIND|MS_REMOUNT|MS_RDONLY, and a tmpfs with MS_RDONLY
pub data Mount : Type 0 where
  bind remount_ro tmpfs : Mount

-- the source and the target are fixed; an answer is `none` where the call fails
pub record Kernel : Type 1 where
  pub State : Type 0
  pub stat_src : State → Option Inode
  -- with S_ISDIR
  pub stat_tgt : State → Option (Bool × Inode)
  -- `statfs`: whether the target is on a tmpfs
  pub on_tmpfs : State → Option Bool
  pub mount : Mount → State → Bool × State

abbrev pub same_inode : Inode → Inode → Bool
same_inode a b = (a.dev == b.dev) && (a.ino == b.ino)

module _ (k : Kernel) where
  -- the value returned, and the mounts tried, in their order
  abbrev pub Ret : Type 0
  Ret = Bool × k.State × List (Mount × Bool)

  abbrev pub after_bind : Bool × k.State → Ret
  after_bind (false, s) = (true, s, (bind, false) ∷ [])
  after_bind (true, s) =
      let (ok, s') = k.mount remount_ro s in (true, s', (bind, true) ∷ (remount_ro, ok) ∷ [])

  -- phases 3 and 4, where the target is no directory
  unfoldable pub on_file : Inode → Inode → k.State → Ret
  on_file src tgt s = if same_inode src tgt then (false, s, []) else after_bind (k.mount bind s)

  abbrev pub after_tmpfs : Bool × k.State → Ret
  after_tmpfs (ok, s) = (true, s, (tmpfs, ok) ∷ [])

  -- phases 2 to 4, where it is one
  unfoldable pub on_dir : k.State → Ret
  on_dir s = elim (k.on_tmpfs s) [
    | none ↦ (true, s, [])
    | some mounted ↦ if mounted then (false, s, []) else after_tmpfs (k.mount tmpfs s)
  ]

  abbrev pub on_target : Inode → Bool × Inode → k.State → Ret
  on_target src (true, tgt) s = on_dir s
  on_target src (false, tgt) s = on_file src tgt s

  unfoldable pub check_remount : k.State → Ret
  unfolding on_dir on_file
  check_remount s = elim (k.stat_src s) [
    | none ↦ (true, s, [])
    | some src ↦ elim (k.stat_tgt s) [ none ↦ (true, s, []) | some tgt ↦ on_target src tgt s ]
  ]
