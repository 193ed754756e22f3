-- ===== src/Account/Examples.antt =====
-- A cpu.stat, and the theorem on it.
use vzgot.Base.{◌≡◌, refl, true, some, [], ◌∷◌}
use vzgot.Text.{codes}
use vzgot.Account.{upd_users, count_users}

users_test : upd_users (some ((7, codes "ann") ∷ (6, codes "LOGIN") ∷ (7, []) ∷ [])) 0 ≡ (true, 1)
unfolding upd_users count_users
users_test = refl
