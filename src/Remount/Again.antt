-- ===== src/Remount/Again.antt =====
-- A second call of sys_check_remount.
use vzgot.Base.{
  ◌≡◌, refl, ◌∙◌, Bool, true, false, Bool-cases, none, some, Option-cases, List, [], ◌∷◌, ◌⊎◌, inl,
  inr, arith,
}
use vzgot.Remount.{
  Inode, Mount, bind, remount_ro, tmpfs, Kernel, same_inode, Ret, after_bind, on_file, after_tmpfs,
  on_dir, on_target, check_remount,
}

-- what a mount that succeeds does to the two paths
pub record Mounts (k : Kernel) : Type 0 where
  -- the source stands behind the target, which was no directory
  pub bound :
      (s s' : k.State) (src tgt : Inode)
      → k.stat_src s ≡ some src
      → k.stat_tgt s ≡ some (false, tgt)
      → k.mount bind s ≡ (true, s')
      → (k.stat_src s' ≡ some src) × (k.stat_tgt s' ≡ some (false, src))
  pub remounted :
      (s s' : k.State) (ok : Bool)
      → k.mount remount_ro s ≡ (ok, s')
      → (k.stat_src s' ≡ k.stat_src s) × (k.stat_tgt s' ≡ k.stat_tgt s)
  -- the root of the tmpfs stands behind the target
  pub fresh :
      (s s' : k.State) (src : Inode)
      → k.stat_src s ≡ some src
      → k.mount tmpfs s ≡ (true, s')
      → (k.stat_src s' ≡ some src)
        × (k.on_tmpfs s' ≡ some true)
        × ((root : Inode) × (k.stat_tgt s' ≡ some (true, root)))

same_inode_refl : (a : Inode) → same_inode a a ≡ true
same_inode_refl a = ground arith

module _ (k : Kernel) (laws : Mounts k) where
  -- a call that has nothing left to do
  abbrev pub IsSettled : k.State → Type 0
  IsSettled s = check_remount k s ≡ (false, s, [])

  pub data Outcome (s : k.State) : Ret k → Type 0 where
    settled : Outcome s (false, s, [])
    unseen :
        (k.stat_src s ≡ none) ⊎ ((k.stat_tgt s ≡ none) ⊎ (k.on_tmpfs s ≡ none))
        → Outcome s (true, s, [])
    refused : (m : Mount) (s' : k.State) → Outcome s (true, s', (m, false) ∷ [])
    mounted :
        (m : Mount) (s' : k.State) (more : List (Mount × Bool))
        → IsSettled s'
        → Outcome s (true, s', (m, true) ∷ more)

  file-IsSettled :
      (s : k.State) (src : Inode)
      → k.stat_src s ≡ some src
      → k.stat_tgt s ≡ some (false, src)
      → IsSettled s
  unfolding check_remount on_file
  file-IsSettled s src a b = rw (check_remount, a, b, on_file, same_inode_refl src) refl

  dir-IsSettled :
      (s : k.State) (src root : Inode)
      → k.stat_src s ≡ some src
      → k.stat_tgt s ≡ some (true, root)
      → k.on_tmpfs s ≡ some true
      → IsSettled s
  unfolding check_remount on_dir
  dir-IsSettled s src root a b c = rw (check_remount, a, b, on_dir, c) refl

  after_bind-Outcome :
      (s : k.State) (src tgt : Inode)
      → k.stat_src s ≡ some src
      → k.stat_tgt s ≡ some (false, tgt)
      → (r : Bool × k.State) → k.mount bind s ≡ r
      → Outcome s (after_bind k r)
  after_bind-Outcome s src tgt a b (false, s') e = refused bind s'
  after_bind-Outcome s src tgt a b (true, s') e =
      let (src', tgt') = laws.bound s s' src tgt a b e in
      let (same_src, same_tgt) = laws.remounted s' _ _ refl in
      mounted bind _ _ (file-IsSettled _ src (same_src ∙ src') (same_tgt ∙ tgt'))

  on_file-Outcome :
      (s : k.State) (src tgt : Inode)
      → k.stat_src s ≡ some src
      → k.stat_tgt s ≡ some (false, tgt)
      → Outcome s (on_file k src tgt s)
  unfolding on_file
  on_file-Outcome s src tgt a b = elim (Bool-cases (same_inode src tgt)) [
    | inl same ↦ rw same settled
    | inr other ↦ rw other (after_bind-Outcome s src tgt a b (k.mount bind s) refl)
  ]

  after_tmpfs-Outcome :
      (s : k.State) (src : Inode)
      → k.stat_src s ≡ some src
      → (r : Bool × k.State) → k.mount tmpfs s ≡ r
      → Outcome s (after_tmpfs k r)
  after_tmpfs-Outcome s src a (false, s') e = refused tmpfs s'
  after_tmpfs-Outcome s src a (true, s') e =
      let (src', on, (root, tgt')) = laws.fresh s s' src a e in
      mounted tmpfs s' [] (dir-IsSettled s' src root src' tgt' on)

  on_dir-Outcome : (s : k.State) (src : Inode) → k.stat_src s ≡ some src → Outcome s (on_dir k s)
  unfolding on_dir
  on_dir-Outcome s src a = elim (Option-cases (k.on_tmpfs s)) [
    | inl unread ↦ rw (on_dir, unread) (unseen (inr (inr unread)))
    | inr (true, e) ↦ rw (on_dir, e) settled
    | inr (false, e) ↦ rw (on_dir, e) (after_tmpfs-Outcome s src a (k.mount tmpfs s) refl)
  ]

  on_target-Outcome :
      (s : k.State) (src : Inode) (t : Bool × Inode)
      → k.stat_src s ≡ some src
      → k.stat_tgt s ≡ some t
      → Outcome s (on_target k src t s)
  on_target-Outcome s src (true, tgt) a b = on_dir-Outcome s src a
  on_target-Outcome s src (false, tgt) a b = on_file-Outcome s src tgt a b

  -- When a mount that succeeds puts the source, or a tmpfs, behind the target, a call of
  -- sys_check_remount that returns false has mounted nothing. One that returns true has found
  -- a path that it cannot read, or was refused the mount, or has mounted; then another call would
  -- return false and mount nothing, also where the mount could not be made read-only.
  pub check_remount-Outcome : (s : k.State) → Outcome s (check_remount k s)
  unfolding check_remount
  check_remount-Outcome s = elim (Option-cases (k.stat_src s)) [
    | inl lost ↦ rw (lost, check_remount) (unseen (inl lost))
    | inr (src, a) ↦ elim (Option-cases (k.stat_tgt s)) [
      | inl lost ↦ rw (a, check_remount, lost) (unseen (inr (inl lost)))
      | inr (t, b) ↦ rw (a, check_remount, b) (on_target-Outcome s src t a b)
    ]
  ]
