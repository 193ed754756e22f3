-- ===== src/Sysfs/Move.antt =====
-- What the answers of the two functions that move a process say.
use vzgot.Base.{
  ℕ, ◌≡◌, refl, true, false, ◌&&◌, Option, none, some, List, [], ◌∷◌, Bool-cases, inl, inr,
  if◌then◌else◌,
}
use vzgot.Text.{Bytes}
use vzgot.Sysfs.{
  Ext, cgr_top, cgr_vzgot, cgr_supervisors, cgr_containers, cgr_unknown, Dir, top, supervisors,
  containers, child, procs, number, open_file, write, flush, Trace, World, Ret, call, join_group,
  move_to_cgroup, attach_to_cgroup, open_and_write, get_sysfs,
}

-- the processes that the kernel has moved, and where to; the newest comes first
unfoldable pub joined : Trace → List (Dir × ℕ)
joined [] = []
joined ((flush dir procs (number pid), true) ∷ t) = (dir, pid) ∷ joined t
joined ((write dir procs (number pid), true) ∷ t) = (dir, pid) ∷ joined t
joined (e ∷ t) = joined t

-- the group that a process can be moved to
abbrev pub target : Bytes → Ext → Option Dir
target contname cgr_top = some top
target contname cgr_supervisors = some (child supervisors contname)
target contname cgr_containers = some (child containers contname)
target contname cgr_vzgot = none
target contname cgr_unknown = none

-- what is returned is whether the process has been moved
abbrev pub Tells : Option Dir → ℕ → Trace → Ret → Type 0
Tells none pid t r = r ≡ (false, t)
Tells (some dir) pid t r = joined r.1 ≡ (if r.0 then (dir, pid) ∷ joined t else joined t)

module _ (w : World) where
  join_group-Tells :
      (dir : Dir) (pid : ℕ) (t : Trace) → Tells (some dir) pid t (join_group w dir pid t)
  unfolding join_group call joined
  join_group-Tells dir pid t = elim (Bool-cases (w.answer t (open_file dir procs))) [
    | inr shut ↦ rw shut refl
    | inl opened ↦
        let u : Trace = (open_file dir procs, true) ∷ t in
        elim (Bool-cases (w.answer u (flush dir procs (number pid)))) [
          | inr lost ↦ rw (opened, lost) refl
          | inl kept ↦ rw (opened, kept) refl
        ]
  ]

  -- sys_move_to_cgroup returns true exactly when the process has been moved, to the group at the
  -- top or to the one of the container or of its supervisor; otherwise no process has been moved.
  -- Of any other group it returns false and calls nothing.
  pub move_to_cgroup-Tells :
      (contname : Bytes) (ext : Ext) (pid : ℕ) (t : Trace)
      → Tells (target contname ext) pid t (move_to_cgroup w contname ext pid t)
  unfolding move_to_cgroup get_sysfs
  move_to_cgroup-Tells contname cgr_top pid t = join_group-Tells top pid t
  move_to_cgroup-Tells contname cgr_supervisors pid t =
      join_group-Tells (child supervisors contname) pid t
  move_to_cgroup-Tells contname cgr_containers pid t =
      join_group-Tells (child containers contname) pid t
  move_to_cgroup-Tells contname cgr_vzgot pid t = refl
  move_to_cgroup-Tells contname cgr_unknown pid t = refl

  -- When the file cannot be opened, or when it can and the write fails, sys_attach_to_cgroup has
  -- not moved the process, and returns true all the same.
  pub attach_to_cgroup_blind :
      (contname : Bytes) (cpid : ℕ) (t : Trace)
      → (let dir = child containers contname in
          w.answer t (open_file dir procs)
          && w.answer ((open_file dir procs, true) ∷ t) (write dir procs (number cpid)))
        ≡ false
      → ((attach_to_cgroup w contname cpid t).0 ≡ true)
        × (joined (attach_to_cgroup w contname cpid t).1 ≡ joined t)
  unfolding attach_to_cgroup open_and_write call joined get_sysfs
  attach_to_cgroup_blind contname cpid t fails =
      let dir = child containers contname in
      elim (Bool-cases (w.answer t (open_file dir procs))) [
        | inr shut ↦ rw shut (refl, refl)
        | inl opened ↦ let lost = rw opened at fails in rw (opened, lost) (refl, refl)
      ]
