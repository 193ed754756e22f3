-- ===== src/Devices/Examples.antt =====
-- A start at which the link is there already, and the theorems on it.
use vzgot.Base.{◌≡◌, refl, false, [], ◌∷◌}
use vzgot.Devices.{
  link_fd, ok, fails, World, set_sup_devices, mapcontids, store_maps, copy_devices, copied,
  create_all, call, uid_map, setgroups, gid_map,
}
use vzgot.Devices.Told.{Outcome, set_sup_devices-Outcome, stored, mapcontids-stored}

-- EEXIST is not EBUSY
abbrev linked : World
linked = record { answer = λ t op. elim op [ link_fd ↦ fails | _ ↦ ok ] }

abbrev willing : World
willing = record { answer = λ t op. ok }

set_sup_devices-Outcome_example : Outcome [] (set_sup_devices linked [])
set_sup_devices-Outcome_example = set_sup_devices-Outcome linked []

linked_test : (set_sup_devices linked []).0 ≡ false
unfolding set_sup_devices copy_devices copied create_all call
linked_test = refl

mapcontids-stored_example :
    (mapcontids willing 1000 1000 []).1
    ≡ stored willing 1000 1000 (uid_map ∷ setgroups ∷ gid_map ∷ []) []
mapcontids-stored_example =
    mapcontids-stored willing 1000 1000 [] (unfold mapcontids store_maps call in refl)
