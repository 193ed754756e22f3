-- ===== src/Sysfs/Examples.antt =====
-- A move, and the answers at concrete inputs.
use vzgot.Base.{◌≡◌, refl, true, false, [], ◌∷◌}
use vzgot.Text.{codes}
use vzgot.Sysfs.{
  flush, World, move_to_cgroup, call, join_group, cgr_containers, clean_all_cgroup, write_str,
  open_and_write, walk, rm_cgroup_item, clean_recursive,
}

-- the kernel refuses every process
abbrev refusing : World
refusing = record { answer = λ t op. elim op [ flush dir file datum ↦ false | _ ↦ true ] }

abbrev closed : World
closed = record { answer = λ t op. false }

refused_test : (move_to_cgroup refusing (codes "web") cgr_containers 12 []).0 ≡ false
unfolding move_to_cgroup join_group call
refused_test = refl

-- what is not a directory is left; the answer is what `isok` held
clean_test :
    (clean_all_cgroup closed false
      ((false, codes "cgroup.kill") ∷ [])
      (codes "web")
      cgr_containers
      []).0
    ≡ false
unfolding clean_all_cgroup clean_recursive walk rm_cgroup_item write_str open_and_write call
clean_test = refl
