-- ===== src/Rootfs/Unmount.antt =====
-- What cnt_unset_rootfs_dir leaves mounted.
use vzgot.Base.{◌≡◌, ◌⊎◌, inl, inr, refl, ◌∙◌, Bool, true, false, List, [], ◌∷◌, All, arith}
use vzgot.Text.{Bytes, same}
use vzgot.Text.Scan.{same_refl, same_comm}
use vzgot.Rootfs.{
  Mounts, Umount, done, not_mounted, failed, take_off, umount_says, unmounts, after_umount,
  unmount_all, unset_rootfs_dir,
}

-- none of the names is `x`
abbrev pub AvoidsName : Bytes → List Bytes → Type 0
AvoidsName x = All (λ n. same x n ≡ false)

abbrev NamesDiffer : List Bytes → Type 0
NamesDiffer [] = Unit
NamesDiffer (n ∷ ns) = AvoidsName n ns × NamesDiffer ns

unmounts-NamesDiffer : NamesDiffer unmounts
unfolding same
unmounts-NamesDiffer = ground arith

module _ (busy : Bytes → Bool) where
  unmount_all-frame :
      (x : Bytes) (names : List Bytes) (mounts : Mounts)
      → AvoidsName x names
      → (unmount_all busy names mounts).1 x ≡ mounts x
  unfolding unmount_all
  unmount_all-frame x [] mounts h = refl
  unmount_all-frame x (n ∷ ns) mounts h =
      go (umount_says (busy n) (mounts n)) (unmount_all-frame x ns mounts h.1)
        (unmount_all-frame x ns (take_off n mounts) h.1)
    where
      go :
          (u : Umount)
          → (unmount_all busy ns mounts).1 x ≡ mounts x
          → (unmount_all busy ns (take_off n mounts)).1 x ≡ take_off n mounts x
          → (after_umount u n (λ m. unmount_all busy ns m) mounts).1 x ≡ mounts x
      go done f g = unfold after_umount in (g ∙ rw h.0 refl)
      go not_mounted f g = unfold after_umount in f
      go failed f g = unfold after_umount in refl

  -- The first error: all names before it are unmounted, and nothing is changed from there on.
  abbrev pub StopsAt : List Bytes → Mounts → Mounts → Type 0
  StopsAt [] mounts left = ⊥
  StopsAt (n ∷ ns) mounts left =
      ((busy n ≡ true) × All (λ x. left x ≡ mounts x) (n ∷ ns))
      ⊎ ((busy n ≡ false) × (left n ≡ false) × StopsAt ns mounts left)

  -- all are unmounted, or an error stopped the loop
  abbrev pub Unmounted : List Bytes → Mounts → Bool × Mounts → Type 0
  Unmounted names mounts (isok, left) =
      ((isok ≡ true) × All (λ n. left n ≡ false) names)
      ⊎ ((isok ≡ false) × StopsAt names mounts left)

  -- what was mounted before may be described by any state that agrees on the names
  AllSame-trans :
      (ns : List Bytes) (mounts mounts' left : Mounts)
      → All (λ x. mounts' x ≡ mounts x) ns
      → All (λ x. left x ≡ mounts' x) ns
      → All (λ x. left x ≡ mounts x) ns
  AllSame-trans [] mounts mounts' left agree h = tt
  AllSame-trans (n ∷ ns) mounts mounts' left agree h =
      (h.0 ∙ agree.0, AllSame-trans ns mounts mounts' left agree.1 h.1)

  StopsAt-agree :
      (ns : List Bytes) (mounts mounts' left : Mounts)
      → All (λ x. mounts' x ≡ mounts x) ns
      → StopsAt ns mounts' left
      → StopsAt ns mounts left
  StopsAt-agree [] mounts mounts' left agree h = h
  StopsAt-agree (n ∷ ns) mounts mounts' left agree (inl (stuck, h)) =
      inl (stuck, AllSame-trans (n ∷ ns) mounts mounts' left agree h)
  StopsAt-agree (n ∷ ns) mounts mounts' left agree (inr (free, off, h)) =
      inr (free, off, StopsAt-agree ns mounts mounts' left agree.1 h)

  Unmounted-cons :
      (n : Bytes) (ns : List Bytes) (mounts mounts' : Mounts) (r : Bool × Mounts)
      → busy n ≡ false
      → r.1 n ≡ false
      → All (λ x. mounts' x ≡ mounts x) ns
      → Unmounted ns mounts' r
      → Unmounted (n ∷ ns) mounts r
  Unmounted-cons n ns mounts mounts' r free off agree (inl (ok, h)) = inl (ok, (off, h))
  Unmounted-cons n ns mounts mounts' r free off agree (inr (ko, h)) =
      inr (ko, inr (free, off, StopsAt-agree ns mounts mounts' r.1 agree h))

  AllSame-refl : (ns : List Bytes) (mounts : Mounts) → All (λ x. mounts x ≡ mounts x) ns
  AllSame-refl [] mounts = tt
  AllSame-refl (n ∷ ns) mounts = (refl, AllSame-refl ns mounts)

  take_off-agree :
      (n : Bytes) (ns : List Bytes) (mounts : Mounts)
      → AvoidsName n ns
      → All (λ x. take_off n mounts x ≡ mounts x) ns
  take_off-agree n [] mounts a = tt
  take_off-agree n (m ∷ ns) mounts a =
      (rw (same_comm m n, a.0) refl, take_off-agree n ns mounts a.1)

  one_more :
      (n : Bytes) (ns : List Bytes) (mounts : Mounts) (b m : Bool)
      → busy n ≡ b
      → mounts n ≡ m
      → AvoidsName n ns
      → ((mounts' : Mounts) → Unmounted ns mounts' (unmount_all busy ns mounts'))
      → Unmounted
          (n ∷ ns)
          mounts
          (after_umount (umount_says b m) n (λ k. unmount_all busy ns k) mounts)
  unfolding after_umount
  one_more n ns mounts true m stuck e a h = inr (refl, inl (stuck, AllSame-refl (n ∷ ns) mounts))
  one_more n ns mounts false true free on a h =
      let mounts' = take_off n mounts in
      Unmounted-cons n ns mounts mounts' (unmount_all busy ns mounts') free
        (unmount_all-frame n ns mounts' a ∙ rw (same_refl n) refl) (take_off-agree n ns mounts a)
        (h mounts')
  one_more n ns mounts false false free off a h =
      Unmounted-cons n ns mounts mounts (unmount_all busy ns mounts) free
        (unmount_all-frame n ns mounts a ∙ off) (AllSame-refl ns mounts) (h mounts)

  unmount_all-Unmounted :
      (names : List Bytes) (mounts : Mounts)
      → NamesDiffer names
      → Unmounted names mounts (unmount_all busy names mounts)
  unfolding unmount_all
  unmount_all-Unmounted [] mounts d = inl (refl, tt)
  unmount_all-Unmounted (n ∷ ns) mounts d =
      one_more n ns mounts (busy n) (mounts n) refl refl d.0
        (λ mounts'. unmount_all-Unmounted ns mounts' d.1)

  -- cnt_unset_rootfs_dir either returns true with nothing left mounted on `run`, `sys` and `proc`,
  -- or it returns false: then an error other than `not mounted` stopped it at one of them, those
  -- before it are unmounted, and it and those behind it are as they were. Mounts elsewhere stay.
  pub unset_rootfs_dir-Unmounted :
      (mounts : Mounts)
      → Unmounted unmounts mounts (unset_rootfs_dir busy mounts)
        × ((x : Bytes) → AvoidsName x unmounts → (unset_rootfs_dir busy mounts).1 x ≡ mounts x)
  unfolding unset_rootfs_dir
  unset_rootfs_dir-Unmounted mounts = (
    unmount_all-Unmounted unmounts mounts unmounts-NamesDiffer,
    λ x avoids. unmount_all-frame x unmounts mounts avoids,
  )
