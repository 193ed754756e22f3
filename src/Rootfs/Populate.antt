-- ===== src/Rootfs/Populate.antt =====
-- The directories that cnt_set_rootfs_dir leaves.
use vzgot.Base.{
  ℕ, ◌≡◌, refl, sym, ap, subst, ◌∙◌, Bool, true, false, ◌&&◌, Option, none, some, List, [], ◌∷◌,
  All, arith, Bool-cases, inl, inr,
}
use vzgot.Text.{Bytes, same}
use vzgot.Text.Scan.{same_refl, same_comm}
use vzgot.Rootfs.{
  Entry, directory, file, link, Dirs, World, change_mode, make_new, make_over, do_mkdir, make_all,
  needed, set_rootfs_dir,
}

-- none of the names is `x`
abbrev pub Avoids : Bytes → List (Bytes × ℕ) → Type 0
Avoids x = All (λ e. same x e.0 ≡ false)

abbrev NamesDistinct : List (Bytes × ℕ) → Type 0
NamesDistinct [] = Unit
NamesDistinct (e ∷ es) = Avoids e.0 es × NamesDistinct es

needed-NamesDistinct : NamesDistinct needed
unfolding same
needed-NamesDistinct = ground arith

both : (a b : Bool) → (a && b) ≡ true → (a ≡ true) × (b ≡ true)
both true true h = (refl, refl)
both true false h = cc
both false b h = cc

module _ (w : World) where
  -- a name that is free or a directory's
  abbrev pub IsPlain : Option Entry → Type 0
  IsPlain none = Unit
  IsPlain (some (directory old)) = Unit
  IsPlain (some e) = ⊥

  -- a directory that was there or is made
  abbrev pub new_dir : Option Entry → ℕ → Entry
  new_dir none mode = directory (w.masked mode)
  new_dir (some old) mode = directory mode

  do_mkdir-frame :
      (x name : Bytes) (mode : ℕ) (dirs : Dirs)
      → same x name ≡ false
      → IsPlain (dirs name)
      → (do_mkdir w name mode dirs).1 x ≡ dirs x
  unfolding do_mkdir
  do_mkdir-frame x name mode dirs ne = go (dirs name)
    where
      go : (o : Option Entry) → IsPlain o → (make_over w o name mode dirs).1 x ≡ dirs x
      go none p =
          unfold make_over make_new in
          elim (Bool-cases (w.makes name)) [ inl ok ↦ rw (ok, ne) refl | inr fails ↦ rw fails refl ]
      go (some (directory old)) p =
          unfold make_over change_mode in
          elim (Bool-cases (w.changes name)) [
            | inl ok ↦ rw (ok, ne) refl
            | inr fails ↦ rw fails refl
          ]
      go (some (file old)) p = absurd p
      go (some (link target)) p = absurd p

  do_mkdir-made :
      (name : Bytes) (mode : ℕ) (dirs : Dirs)
      → IsPlain (dirs name)
      → (do_mkdir w name mode dirs).0 ≡ true
      → (do_mkdir w name mode dirs).1 name ≡ some (new_dir (dirs name) mode)
  unfolding do_mkdir
  do_mkdir-made name mode dirs = go (dirs name)
    where
      go :
          (o : Option Entry)
          → IsPlain o
          → (make_over w o name mode dirs).0 ≡ true
          → (make_over w o name mode dirs).1 name ≡ some (new_dir o mode)
      go none p =
          unfold make_over make_new in
          elim (Bool-cases (w.makes name)) [
            | inl ok ↦ rw (ok, same_refl name) (λ h. refl)
            | inr fails ↦ rw fails (λ h. absurd (cc h))
          ]
      go (some (directory old)) p =
          unfold make_over change_mode in
          elim (Bool-cases (w.changes name)) [
            | inl ok ↦ rw (ok, same_refl name) (λ h. refl)
            | inr fails ↦ rw fails (λ h. absurd (cc h))
          ]
      go (some (file old)) p = absurd p
      go (some (link target)) p = absurd p

  -- the names are free or directories'
  abbrev pub AllPlain : List (Bytes × ℕ) → Dirs → Type 0
  AllPlain es dirs = All (λ e. IsPlain (dirs e.0)) es

  still_plain :
      (name : Bytes) (mode : ℕ) (dirs : Dirs) (es : List (Bytes × ℕ))
      → Avoids name es
      → IsPlain (dirs name)
      → AllPlain es dirs
      → AllPlain es (do_mkdir w name mode dirs).1
  still_plain name mode dirs [] a p ps = tt
  still_plain name mode dirs (e ∷ es) a p ps = (
    subst IsPlain (sym (do_mkdir-frame e.0 name mode dirs (same_comm e.0 name ∙ a.0) p)) ps.0,
    still_plain name mode dirs es a.1 p ps.1,
  )

  make_all-frame :
      (x : Bytes) (es : List (Bytes × ℕ)) (isok : Bool) (dirs : Dirs)
      → Avoids x es
      → NamesDistinct es
      → AllPlain es dirs
      → (make_all w es isok dirs).1 x ≡ dirs x
  unfolding make_all
  make_all-frame x [] isok dirs h d p = refl
  make_all-frame x ((name, mode) ∷ es) isok dirs h d p =
      make_all-frame x es _ _ h.1 d.1 (still_plain name mode dirs es d.0 p.0 p.1)
      ∙ do_mkdir-frame x name mode dirs h.0 p.0

  make_all-isok :
      (es : List (Bytes × ℕ)) (isok : Bool) (dirs : Dirs)
      → (make_all w es isok dirs).0 ≡ true
      → isok ≡ true
  unfolding make_all
  make_all-isok [] isok dirs h = h
  make_all-isok ((name, mode) ∷ es) isok dirs h = ground (arith, make_all-isok es _ _ h)

  -- what was there before a directory of another name was made
  earlier :
      (name : Bytes) (mode : ℕ) (dirs : Dirs) (es : List (Bytes × ℕ)) (result : Dirs)
      → Avoids name es
      → IsPlain (dirs name)
      → All (λ e. result e.0 ≡ some (new_dir ((do_mkdir w name mode dirs).1 e.0) e.1)) es
      → All (λ e. result e.0 ≡ some (new_dir (dirs e.0) e.1)) es
  earlier name mode dirs [] result a p h = tt
  earlier name mode dirs (e ∷ es) result a p h = (
    h.0
        ∙ ap (λ o. some (new_dir o e.1))
            (do_mkdir-frame e.0 name mode dirs (same_comm e.0 name ∙ a.0) p),
    earlier name mode dirs es result a.1 p h.1,
  )

  make_all-modes :
      (es : List (Bytes × ℕ)) (isok : Bool) (dirs : Dirs)
      → NamesDistinct es
      → AllPlain es dirs
      → (make_all w es isok dirs).0 ≡ true
      → All (λ e. (make_all w es isok dirs).1 e.0 ≡ some (new_dir (dirs e.0) e.1)) es
  unfolding make_all
  make_all-modes [] isok dirs d p h = tt
  make_all-modes ((name, mode) ∷ es) isok dirs d p h =
      let ps = still_plain name mode dirs es d.0 p.0 p.1 in
      let (made, dirs') = do_mkdir w name mode dirs in
      let (was_made, was_ok) = both made isok (make_all-isok es (made && isok) dirs' h) in
      (
        make_all-frame name es (made && isok) dirs' d.0 d.1 ps
            ∙ do_mkdir-made name mode dirs p.0 was_made,
        earlier name mode dirs es (make_all w es (made && isok) dirs').1 d.0 p.0
            (make_all-modes es (made && isok) dirs' d.1 ps h),
      )

  -- When each of the six names is free or a directory's, and cnt_set_rootfs_dir returns true, the
  -- six directories are there: with its mode if it was there before, and otherwise with what the
  -- umask leaves of its mode; and nothing under another name is changed.
  pub set_rootfs_dir-modes :
      (dirs : Dirs)
      → AllPlain needed dirs
      → (set_rootfs_dir w dirs).0 ≡ true
      → All (λ e. (set_rootfs_dir w dirs).1 e.0 ≡ some (new_dir (dirs e.0) e.1)) needed
        × ((x : Bytes) → Avoids x needed → (set_rootfs_dir w dirs).1 x ≡ dirs x)
  unfolding set_rootfs_dir
  set_rootfs_dir-modes dirs p h = (
    make_all-modes needed true dirs needed-NamesDistinct p h,
    λ x avoids. make_all-frame x needed true dirs avoids needed-NamesDistinct p,
  )

  -- where a regular file has the name, do_mkdir gives it the mode and returns true
  pub do_mkdir_file :
      (name : Bytes) (old mode : ℕ) (dirs : Dirs)
      → dirs name ≡ some (file old)
      → w.changes name ≡ true
      → ((do_mkdir w name mode dirs).0 ≡ true)
        × ((do_mkdir w name mode dirs).1 name ≡ some (file mode))
  unfolding do_mkdir make_over change_mode
  do_mkdir_file name old mode dirs e ok = rw (e, ok, same_refl name) (refl, refl)
