-- ===== src/Remount/Examples.antt =====
-- A file that is mounted over another one, and the theorem on it.
use vzgot.Base.{◌≡◌, refl, sym, ap, ◌∙◌, Bool, true, false, none, some, if◌then◌else◌}
use vzgot.Remount.{Inode, Mount, bind, remount_ro, tmpfs, Kernel, check_remount}
use vzgot.Remount.Again.{Mounts, Outcome, check_remount-Outcome}

-- the state is whether the mount is there
abbrev source : Inode
source = record { dev = 1; ino = 5 }

abbrev target : Inode
target = record { dev = 1; ino = 6 }

abbrev answer : Mount → Bool → Bool × Bool
answer bind s = (true, true)
answer remount_ro s = (false, s)
answer tmpfs s = (false, s)

abbrev files : Kernel
files = record {
  State = Bool;
  stat_src = λ s. some source;
  stat_tgt = λ s. some (false, (if s then source else target));
  on_tmpfs = λ s. none;
  mount = answer;
}

answer_bind : (s s' : Bool) → answer bind s ≡ (true, s') → s' ≡ true
answer_bind s s' e = ap (λ r. r.1) (sym e)

no_tmpfs : (s s' : Bool) → answer tmpfs s ≡ (true, s') → false ≡ true
no_tmpfs s s' e = ap (λ r. r.0) e

files-Mounts : Mounts files
files-Mounts = record {
  bound = λ s s' src tgt a b e. (
    a,
    ap (λ b. some (false, if b then source else target)) (answer_bind s s' e)
        ∙ ap (λ o. elim o [ none ↦ some (false, src) | some i ↦ some (false, i) ]) a,
  );
  remounted = λ s s' ok e. (refl, ap (λ r. some (false, if r.1 then source else target)) (sym e));
  fresh = λ s s' src a e. absurd (cc (no_tmpfs s s' e));
}

check_remount-Outcome_example : Outcome files files-Mounts false (check_remount files false)
check_remount-Outcome_example = check_remount-Outcome files files-Mounts false
