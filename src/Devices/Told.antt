-- ===== src/Devices/Told.antt =====
-- What the answers of these functions say.
use vzgot.Base.{ℕ, ◌≡◌, refl, sym, subst, Bool, true, false, ◌&&◌, List, [], ◌∷◌, if◌then◌else◌}
use vzgot.Text.{Bytes}
use vzgot.Devices.{
  specdevs, make_dev, mount_dev, copy_devref, umount_dev, link_fd, create, IdFile, uid_map,
  setgroups, gid_map, open_map, Answer, ok, busy, fails, Trace, World, Ret, Cmd, go_on, ◌>>◌, is_ok,
  is_ok_or_busy, call, copied, copy_devices, create_all, set_sup_devices, store_op, store_maps,
  mapcontids,
}

-- ---- cnt_mapcontids ----

-- the files have been opened and written, in this order
abbrev pub stored : (w : World) → ℕ → ℕ → List IdFile → Trace → Trace
stored w contuid contgid [] t = t
stored w contuid contgid (file ∷ files) t =
    stored w contuid contgid files ((store_op w contuid contgid file, ok) ∷ (open_map file, ok) ∷ t)

and_ok : (good : Bool) (a : Answer) → (good && is_ok a) ≡ true → (good ≡ true) × (a ≡ ok)
and_ok true ok e = (refl, refl)
and_ok true busy e = cc
and_ok true fails e = cc
and_ok false a e = cc

module _ (w : World) (contuid contgid : ℕ) where
  store_maps-stored :
      (files : List IdFile) (good : Bool) (t : Trace)
      → (store_maps w contuid contgid files good t).0 ≡ true
      → (good ≡ true)
        × ((store_maps w contuid contgid files good t).1 ≡ stored w contuid contgid files t)
  unfolding store_maps call
  store_maps-stored [] good t said = (said, refl)
  store_maps-stored (file ∷ files) good t said =
      let op = store_op w contuid contgid file in
      let run = store_maps w contuid contgid files in
      let u : Trace = (open_map file, ok) ∷ t in
      let said_of = λ (r : Ret).
        r.0 ≡ true → (good ≡ true) × (r.1 ≡ stored w contuid contgid files ((op, ok) ∷ u)) in
      (elim (w.answer t (open_map file))
          as (λ a.
            let v : Trace = (open_map file, a) ∷ t in
            said_of (
              if is_ok a
              then run (good && is_ok (w.answer v op)) ((op, w.answer v op) ∷ v)
              else (false, v))) [
                | ok ↦
                    elim (w.answer u op) as (λ b. said_of (run (good && is_ok b) ((op, b) ∷ u))) [
                      | ok ↦ λ e.
                          let (h, shape) =
                            store_maps-stored files (good && true) ((op, ok) ∷ u) e in
                          ((and_ok good ok h).0, shape)
                      | busy ↦ λ e.
                          let (h, shape) =
                            store_maps-stored files (good && false) ((op, busy) ∷ u) e in
                          let (g, no_ok) = and_ok good busy h in absurd cc
                      | fails ↦ λ e.
                          let (h, shape) =
                            store_maps-stored files (good && false) ((op, fails) ∷ u) e in
                          let (g, no_ok) = and_ok good fails h in absurd cc
                    ]
                | busy ↦ λ e. cc
                | fails ↦ λ e. cc
              ])
        said

  -- cnt_mapcontids returns true only when uid_map, setgroups and gid_map have all been opened and
  -- written, in this order.
  pub mapcontids-stored :
      (t : Trace)
      → (mapcontids w contuid contgid t).0 ≡ true
      → (mapcontids w contuid contgid t).1
        ≡ stored w contuid contgid (uid_map ∷ setgroups ∷ gid_map ∷ []) t
  unfolding mapcontids
  mapcontids-stored t said = (store_maps-stored (uid_map ∷ setgroups ∷ gid_map ∷ []) true t said).1

-- ---- cnt_set_sup_devices ----

-- every name has been tried, in this order
abbrev pub Creates : List Bytes → Trace → Trace → Type 0
Creates [] t u = u ≡ t
Creates (name ∷ names) t u = (a : Answer) × Creates names ((create name, a) ∷ t) u

-- the calls until the devices are copied
abbrev pub copied_devices : Answer → Trace → Trace
copied_devices a t = (copy_devref, ok) ∷ (mount_dev, a) ∷ (make_dev, ok) ∷ t

-- how cnt_set_sup_devices can end
pub data Outcome (t : Trace) (r : Ret) : Type 0 where
  no_dir : (a : Answer) → is_ok a ≡ false → r ≡ (false, (make_dev, a) ∷ t) → Outcome t r
  no_mount : r ≡ (false, (mount_dev, fails) ∷ (make_dev, ok) ∷ t) → Outcome t r
  -- the directory is unmounted
  no_copy :
      (a b c : Answer)
      → is_ok_or_busy a ≡ true
      → is_ok b ≡ false
      → r ≡ (false, (umount_dev, c) ∷ (copy_devref, b) ∷ (mount_dev, a) ∷ (make_dev, ok) ∷ t)
      → Outcome t r
  -- the directory stays mounted
  no_link :
      (a : Answer) (u : Trace)
      → is_ok_or_busy a ≡ true
      → Creates specdevs (copied_devices a t) u
      → r ≡ (false, (link_fd, fails) ∷ u)
      → Outcome t r
  all_set :
      (a b : Answer) (u : Trace)
      → is_ok_or_busy a ≡ true
      → is_ok_or_busy b ≡ true
      → Creates specdevs (copied_devices a t) u
      → r ≡ (true, (link_fd, b) ∷ u)
      → Outcome t r

module _ (w : World) where
  create_all-Creates :
      (names : List Bytes) (t : Trace)
      → (u : Trace) × (create_all w names t ≡ (true, u)) × Creates names t u
  unfolding create_all call
  create_all-Creates [] t = (t, refl, refl)
  create_all-Creates (name ∷ names) t =
      let a = w.answer t (create name) in
      let (u, e, c) = create_all-Creates names ((create name, a) ∷ t) in (u, e, (a, c))

  -- the phases of cnt_set_sup_devices from one on
  abbrev from_create : Cmd
  from_create = create_all w specdevs >> call w link_fd is_ok_or_busy

  abbrev from_copy : Cmd
  from_copy = copy_devices w >> from_create

  abbrev from_mount : Cmd
  from_mount = call w mount_dev is_ok_or_busy >> from_copy

  from_create-Outcome :
      (t : Trace) (a : Answer)
      → is_ok_or_busy a ≡ true
      → Outcome t (from_create (copied_devices a t))
  unfolding call
  from_create-Outcome t a good =
      let (u, e, c) = create_all-Creates specdevs (copied_devices a t) in
      let k = call w link_fd is_ok_or_busy in
      subst (λ r. Outcome t (go_on r k)) (sym e)
        (elim (w.answer u link_fd) as (λ b. Outcome t (is_ok_or_busy b, (link_fd, b) ∷ u)) [
          | ok ↦ all_set a ok u good refl c refl
          | busy ↦ all_set a busy u good refl c refl
          | fails ↦ no_link a u good c refl
        ])

  from_copy-Outcome :
      (t : Trace) (a : Answer)
      → is_ok_or_busy a ≡ true
      → Outcome t (from_copy ((mount_dev, a) ∷ (make_dev, ok) ∷ t))
  unfolding copy_devices copied call
  from_copy-Outcome t a good =
      let u : Trace = (mount_dev, a) ∷ (make_dev, ok) ∷ t in
      elim (w.answer u copy_devref)
        as (λ b. Outcome t (go_on (copied w b ((copy_devref, b) ∷ u)) from_create)) [
          | ok ↦ from_create-Outcome t a good
          | busy ↦ no_copy a busy _ good refl refl
          | fails ↦ no_copy a fails _ good refl refl
        ]

  from_mount-Outcome : (t : Trace) → Outcome t (from_mount ((make_dev, ok) ∷ t))
  unfolding call
  from_mount-Outcome t =
      let u : Trace = (make_dev, ok) ∷ t in
      elim (w.answer u mount_dev)
        as (λ a. Outcome t (go_on (is_ok_or_busy a, (mount_dev, a) ∷ u) from_copy)) [
          | ok ↦ from_copy-Outcome t ok refl
          | busy ↦ from_copy-Outcome t busy refl
          | fails ↦ no_mount refl
        ]

  -- cnt_set_sup_devices returns true exactly when the directory was made and mounted, or mounted
  -- before, the devices were copied, all special files were tried and the link was made, or was
  -- busy. A failing copy unmounts the directory again; a failing link leaves it mounted.
  pub set_sup_devices-Outcome : (t : Trace) → Outcome t (set_sup_devices w t)
  unfolding set_sup_devices call
  set_sup_devices-Outcome t =
      elim (w.answer t make_dev)
        as (λ a. Outcome t (go_on (is_ok a, (make_dev, a) ∷ t) from_mount)) [
          | ok ↦ from_mount-Outcome t
          | busy ↦ no_dir busy refl refl
          | fails ↦ no_dir fails refl refl
        ]
