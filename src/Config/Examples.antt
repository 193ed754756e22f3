-- ===== src/Config/Examples.antt =====
-- Small configuration files, and the theorems on them.
use vzgot.Base.{
  ◌≡◌, refl, true, false, Option, none, some, ◌⊎◌, [], ◌∷◌, arith, if◌then◌else◌, pos, negsuc,
}
use vzgot.Text.{Bytes, codes, same, is_space, skip_spaces}
use vzgot.Config.{Env, World, get_env, main_path, cont_path, gesenv, loadconfig, scan_line}
use vzgot.Config.Lines.{Assignment, text, IsGood}
use vzgot.Config.Order.{last_of, or_else, loadconfig-last}
use vzgot.Config.Total.{loadconfig-total}

abbrev etc : Bytes
etc = codes "/etc/vzgot"

abbrev max_cpu : Assignment
max_cpu = record { name = codes "MAXCPU"; value = codes "50"; quoted = false }

abbrev max_cpu_vps : Assignment
max_cpu_vps = record { name = codes "MAXCPU"; value = codes "80"; quoted = true }

abbrev dist : Assignment
dist = record { name = codes "DIST"; value = codes "Void"; quoted = true }

abbrev files : Bytes → Option Bytes
files path =
    if same path (codes "/etc/vzgot/vzgot_config")
    then some (text (max_cpu ∷ dist ∷ []))
    else if same path (codes "/etc/vzgot/names/vps")
    then some (text (max_cpu_vps ∷ []))
    else none

abbrev world : World
world = record { file = files; sets = λ name value env. true; unsets = λ name env. true }

scan_test : scan_line (codes "DIST=\"Void Linux\"\n") ≡ some (codes "DIST", codes "\"Void")
unfolding scan_line skip_spaces is_space
scan_test = refl

max_cpu-IsGood : IsGood max_cpu
unfolding is_space
max_cpu-IsGood = record {
  named = omega arith;
  name_fits = omega arith;
  in_name = omega arith;
  valued = omega arith;
  value_fits = omega arith;
  in_value = ground arith;
}

max_cpu_vps-IsGood : IsGood max_cpu_vps
unfolding is_space
max_cpu_vps-IsGood = record {
  named = omega arith;
  name_fits = omega arith;
  in_name = omega arith;
  valued = omega arith;
  value_fits = omega arith;
  in_value = ground arith;
}

dist-IsGood : IsGood dist
unfolding is_space
dist-IsGood = record {
  named = omega arith;
  name_fits = omega arith;
  in_name = omega arith;
  valued = omega arith;
  value_fits = omega arith;
  in_value = ground arith;
}

loadconfig-last_example :
    (out : Env) × (loadconfig world etc none (some (codes "vps")) [] ≡ some (pos 0, out))
    × ((k : Bytes)
        → get_env k out
          ≡ or_else
              (last_of k (max_cpu_vps ∷ []))
              (or_else (last_of k (max_cpu ∷ dist ∷ [])) (get_env k [])))
unfolding main_path cont_path same
loadconfig-last_example =
    loadconfig-last world (λ name value env. refl) etc (codes "vps") (max_cpu ∷ dist ∷ [])
      (max_cpu_vps ∷ []) [] (max_cpu-IsGood, (dist-IsGood, tt)) (max_cpu_vps-IsGood, tt) refl refl

loadconfig-total_example :
    ((files (main_path etc) ≡ none)
      × (loadconfig world etc none (some (codes "missing")) [] ≡ some (negsuc 0, [])))
    ⊎ ((main : Bytes) × (files (main_path etc) ≡ some main)
        × (out : Env) × (gesenv world (main_path etc) true [] ≡ some (pos 0, out))
        × (((files (cont_path etc (codes "missing")) ≡ none)
              × (loadconfig world etc none (some (codes "missing")) [] ≡ some (negsuc 0, out)))
            ⊎ ((cont : Bytes) × (files (cont_path etc (codes "missing")) ≡ some cont)
                × (both : Env) × (gesenv world (cont_path etc (codes "missing")) true out
                    ≡ some (pos 0, both))
                × (loadconfig world etc none (some (codes "missing")) [] ≡ some (pos 0, both)))))
loadconfig-total_example = loadconfig-total world etc (codes "missing") []
