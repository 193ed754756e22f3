-- ===== src/Config/Total.antt =====
-- That gesenv and cfg_loadconfig return, whatever the files hold.
use vzgot.Base.{
  ℕ, zero, suc, ◌<◌, ◌≤◌, ◌≡◌, ◌⊎◌, inl, inr, refl, ap, ◌∙◌, Bool, true, none, some, [], ◌∷◌, arith,
  length, pos, negsuc, Option-cases,
}
use vzgot.Text.{Bytes, line_of, getstr}
use vzgot.Config.{
  Env, World, main_path, cont_path, do_lines, loaded, read_all, gesenv, load_cont, loadconfig,
}

line_of-shorter : (n : ℕ) (file : Bytes) → length (line_of n file).1 ≤ length file
unfolding line_of
line_of-shorter zero file = omega arith
line_of-shorter (suc n) [] = omega arith
line_of-shorter (suc n) (c ∷ file) = ground (arith, line_of-shorter n file)

line_of-consumes :
    (n c : ℕ) (file : Bytes) → length (line_of (suc n) (c ∷ file)).1 < length (c ∷ file)
unfolding line_of
line_of-consumes n c file = ground (arith, line_of-shorter n file)

module _ (w : World) where
  do_lines-total :
      (toadd : Bool) (fuel : ℕ) (file : Bytes) (env : Env)
      → length file < fuel
      → (out : Env) × (do_lines w toadd fuel file env ≡ some out)
  unfolding do_lines getstr
  do_lines-total toadd zero file env h = absurd (omega arith)
  do_lines-total toadd (suc fuel) [] env h = (env, refl)
  do_lines-total toadd (suc fuel) (c ∷ file) env h =
      do_lines-total toadd fuel (line_of 999 (c ∷ file)).1 _
        (omega (arith, line_of-consumes 998 c file))

  -- gesenv returns -1 and changes nothing if the file cannot be opened, and 0 otherwise: its loop
  -- comes to the end of every file.
  pub gesenv-total :
      (path : Bytes) (toadd : Bool) (env : Env)
      → ((w.file path ≡ none) × (gesenv w path toadd env ≡ some (negsuc 0, env)))
        ⊎ ((file : Bytes) × (w.file path ≡ some file)
            × (out : Env) × (gesenv w path toadd env ≡ some (pos 0, out)))
  unfolding gesenv read_all
  gesenv-total path toadd env = elim (Option-cases (w.file path)) [
    | inl missing ↦ inl (missing, ap (λ f. read_all w toadd f env) missing)
    | inr (file, there) ↦
        let (out, e) = do_lines-total toadd (suc (length file)) file env (omega arith) in
        inr (file, there, out, ap (λ f. read_all w toadd f env) there ∙ ap (loaded w) e)
  ]

  -- cfg_loadconfig for a container always returns, in exactly one of three ways. The main file
  -- cannot be opened, and it returns -1 with the environment as it was; or the main file can be
  -- opened and the container's cannot, and it returns -1 with the environment that the main file
  -- gives; or both can be opened, and it returns 0 with the environment that the container's file
  -- gives behind the main one.
  pub loadconfig-total :
      (dir name : Bytes) (env : Env)
      → ((w.file (main_path dir) ≡ none)
          × (loadconfig w dir none (some name) env ≡ some (negsuc 0, env)))
        ⊎ ((main : Bytes) × (w.file (main_path dir) ≡ some main)
            × (out : Env) × (gesenv w (main_path dir) true env ≡ some (pos 0, out))
            × (((w.file (cont_path dir name) ≡ none)
                  × (loadconfig w dir none (some name) env ≡ some (negsuc 0, out)))
                ⊎ ((cont : Bytes) × (w.file (cont_path dir name) ≡ some cont)
                    × (both : Env) × (gesenv w (cont_path dir name) true out ≡ some (pos 0, both))
                    × (loadconfig w dir none (some name) env ≡ some (pos 0, both)))))
  unfolding loadconfig load_cont
  loadconfig-total dir name env = elim (gesenv-total (main_path dir) true env) [
    | inl (missing, e) ↦ inl (missing, ap (load_cont w dir (some name)) e)
    | inr (main, there, out, e) ↦ inr (
      main,
      there,
      out,
      e,
      elim (gesenv-total (cont_path dir name) true out) [
        | inl (missing, f) ↦ inl (missing, ap (load_cont w dir (some name)) e ∙ f)
        | inr (cont, found, both, f) ↦
            inr (cont, found, both, f, ap (load_cont w dir (some name)) e ∙ f)
      ],
    )
  ]
