-- ===== src/Config/Order.antt =====
-- Which file's assignment of a variable counts, and what a missing file does.
use vzgot.Base.{
  ◌≡◌, refl, sym, ap, subst, ◌∙◌, true, Option, none, some, List, [], ◌∷◌, arith, if◌then◌else◌,
  pos, All, Bool-cases, inl, inr,
}
use vzgot.Text.{Bytes, same}
use vzgot.Text.Scan.{same-eq, same_trans}
use vzgot.Config.{
  Env, World, get_env, set_env, main_path, cont_path, read_all, gesenv, load_cont, loadconfig,
}
use vzgot.Config.Lines.{Assignment, text, IsGood, set_all, read_all-text}

-- the value of the last assignment of a variable, if there is one
unfoldable pub last_of : Bytes → List Assignment → Option Bytes
last_of name [] = none
last_of name (a ∷ rest) = elim (last_of name rest) [
  | some v ↦ some v
  | none ↦ if same a.name name then some a.value else none
]

abbrev pub or_else : Option Bytes → Option Bytes → Option Bytes
or_else none d = d
or_else (some v) d = some v

get_env-set_env :
    (k name v : Bytes) (env : Env)
    → get_env k (set_env name v env) ≡ (if same name k then some v else get_env k env)
unfolding get_env set_env
get_env-set_env k name v [] = refl
get_env-set_env k name v ((n, x) ∷ env) = elim (Bool-cases (same n name)) [
  | inl e ↦ rw e (
      subst
        (λ m.
          (if same name k then some v else get_env k env)
          ≡ (if same name k then some v else if same m k then some x else get_env k env))
        (sym (same-eq n name e)) (ground arith))
  | inr ne ↦ rw ne (elim (Bool-cases (same n k)) [
    | inr f ↦ rw f (get_env-set_env k name v env)
    | inl f ↦ rw f (elim (Bool-cases (same name k)) [
      | inr g ↦ rw g refl
      | inl g ↦ absurd (cc (same_trans n k name f g))
    ])
  ])
]

get_env-set_all :
    (k : Bytes) (es : List Assignment) (env : Env)
    → get_env k (set_all es env) ≡ or_else (last_of k es) (get_env k env)
unfolding set_all last_of
get_env-set_all k [] env = refl
get_env-set_all k (a ∷ es) env =
    ground (
      arith,
      get_env-set_all k es (set_env a.name a.value env),
      get_env-set_env k a.name a.value env,
    )

module _ (w : World) (takes : (name value : Bytes) (env : Env) → w.sets name value env ≡ true) where
  read_file :
      (path : Bytes) (es : List Assignment) (env : Env)
      → All IsGood es
      → w.file path ≡ some (text es)
      → gesenv w path true env ≡ some (pos 0, set_all es env)
  unfolding gesenv
  read_file path es env g e = ap (λ f. read_all w true f env) e ∙ read_all-text w takes es env g

  -- When the main file and the container's file hold nothing but good assignments, one on each
  -- line, and the environment takes every change, cfg_loadconfig returns 0, and every variable
  -- has the value of its last assignment in the container's file, or else of its last one in the
  -- main file, or else the value that it had.
  pub loadconfig-last :
      (dir name : Bytes) (main cont : List Assignment) (env : Env)
      → All IsGood main
      → All IsGood cont
      → w.file (main_path dir) ≡ some (text main)
      → w.file (cont_path dir name) ≡ some (text cont)
      → (out : Env) × (loadconfig w dir none (some name) env ≡ some (pos 0, out))
        × ((k : Bytes)
            → get_env k out ≡ or_else (last_of k cont) (or_else (last_of k main) (get_env k env)))
  unfolding loadconfig load_cont
  loadconfig-last dir name main cont env gm gc em ec = (
    set_all cont (set_all main env),
    ap (load_cont w dir (some name)) (read_file (main_path dir) main env gm em)
        ∙ read_file (cont_path dir name) cont (set_all main env) gc ec,
    λ k.
        get_env-set_all k cont (set_all main env)
        ∙ ap (or_else (last_of k cont)) (get_env-set_all k main env),
  )
