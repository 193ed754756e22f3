-- ===== src/Cgroup/Guard.antt =====
-- What has been done when the supervisor moves into its control group.
use vzgot.Base.{ℕ, ◌≡◌, ◌⊎◌, inl, inr, refl, Bool, true, false, [], ◌∷◌, sym, subst}
use vzgot.Text.{Bytes}
use vzgot.Sysfs.{
  Dir, vz_root, supervisors, containers, child, Register, subtree_control, procs, text, number, Op,
  open_file, write, probe, flush, pin, mkdir, rmdir, sleep, setcpuset, set_cont_weight,
  set_cont_usage, Trace, World, Ret, Cmd, go_on, ◌>>◌, ignoring, call, write_str, open_and_write,
  move_to_cgroup, join_group, get_sysfs,
}
use vzgot.Sysfs.Calm.{Grows, stay, more, Adds, >>-Adds, call-Adds, open_and_write-Adds}
use vzgot.Limits.{Doubles, Host, cgroup_limits}
use vzgot.Limits.Floors.{IsFair, cgroup_limits-IsFair}
use vzgot.Cgroup.{privs, make_groups, set_cgroup}

-- the call has been made, and has succeeded
abbrev pub Has : Op → Trace → Type 0
Has op [] = ⊥
Has op ((o, b) ∷ t) = ((o ≡ op) × (b ≡ true)) ⊎ Has op t

-- all directories are there, each made with mode 0755
pub record Ready (contname : Bytes) (t : Trace) : Type 0 where
  pub root : Has (mkdir vz_root 493) t
  pub supervisors_made : Has (mkdir supervisors 493) t
  pub containers_made : Has (mkdir containers 493) t
  pub supervisor_made : Has (mkdir (child supervisors contname) 493) t
  pub container_made : Has (mkdir (child containers contname) 493) t

-- what has to be true when the call is made
abbrev pub Safe : Bytes → Op → Trace → Type 0
Safe contname (flush dir file datum) t = Ready contname t × (dir ≡ child supervisors contname)
Safe contname op t = Unit

abbrev pub Guarded : Bytes → Trace → Type 0
Guarded contname [] = Unit
Guarded contname ((op, b) ∷ t) = Safe contname op t × Guarded contname t

-- any call but a move
abbrev IsCalm : Op × Bool → Type 0
IsCalm (flush dir file datum, b) = ⊥
IsCalm e = Unit

Safe-IsCalm :
    (contname : Bytes) (op : Op) (b : Bool) (t : Trace) → IsCalm (op, b) → Safe contname op t
Safe-IsCalm contname (open_file dir file) b t c = tt
Safe-IsCalm contname (write dir file datum) b t c = tt
Safe-IsCalm contname (probe dir file) b t c = tt
Safe-IsCalm contname (flush dir file datum) b t c = absurd c
Safe-IsCalm contname (pin pid) b t c = tt
Safe-IsCalm contname (mkdir dir mode) b t c = tt
Safe-IsCalm contname (rmdir path) b t c = tt
Safe-IsCalm contname sleep b t c = tt
Safe-IsCalm contname (setcpuset value) b t c = tt
Safe-IsCalm contname (set_cont_weight value) b t c = tt
Safe-IsCalm contname (set_cont_usage value) b t c = tt

IsCalm-IsFair : (e : Op × Bool) → IsFair e → IsCalm e
IsCalm-IsFair (open_file dir file, b) f = tt
IsCalm-IsFair (write dir file datum, b) f = tt
IsCalm-IsFair (probe dir file, b) f = tt
IsCalm-IsFair (flush dir file datum, b) f = absurd f
IsCalm-IsFair (pin pid, b) f = tt
IsCalm-IsFair (mkdir dir mode, b) f = tt
IsCalm-IsFair (rmdir path, b) f = tt
IsCalm-IsFair (sleep, b) f = tt
IsCalm-IsFair (setcpuset value, b) f = tt
IsCalm-IsFair (set_cont_weight value, b) f = tt
IsCalm-IsFair (set_cont_usage value, b) f = tt

Grows-IsFair : (t u : Trace) → Grows IsFair t u → Grows IsCalm t u
Grows-IsFair t u stay = stay
Grows-IsFair t u (more e t' f g) = more e t' (IsCalm-IsFair e f) (Grows-IsFair t t' g)

Has-Grows : (op : Op) (t u : Trace) → Grows IsCalm t u → Has op t → Has op u
Has-Grows op t u stay h = h
Has-Grows op t u (more (o, b) t' c g) h = inr (Has-Grows op t t' g h)

module _ (contname : Bytes) where
  Ready-Grows : (t u : Trace) → Grows IsCalm t u → Ready contname t → Ready contname u
  Ready-Grows t u g r = record {
    root = Has-Grows _ t u g r.root;
    supervisors_made = Has-Grows _ t u g r.supervisors_made;
    containers_made = Has-Grows _ t u g r.containers_made;
    supervisor_made = Has-Grows _ t u g r.supervisor_made;
    container_made = Has-Grows _ t u g r.container_made;
  }

  Guarded-Grows : (t u : Trace) → Grows IsCalm t u → Guarded contname t → Guarded contname u
  Guarded-Grows t u stay h = h
  Guarded-Grows t u (more (op, b) t' c g) h =
      (Safe-IsCalm contname op b t' c, Guarded-Grows t t' g h)

  module _ (w : World) where
    write_str-Grows :
        (dir : Dir) (file : Register) (s : Bytes) (t : Trace)
        → Grows IsCalm t (write_str w dir file s t).1
    unfolding write_str
    write_str-Grows dir file s t =
        open_and_write-Adds IsCalm w true dir file (text s) (λ b. tt) (λ b. tt) t

    write_str-true :
        (dir : Dir) (file : Register) (s : Bytes) (t : Trace)
        → write_str w dir file s t ≡ (true, (write_str w dir file s t).1)
    unfolding write_str open_and_write
    write_str-true dir file s t = refl

    -- `Q` holds of the trace if the chain gets through
    abbrev Ends : (Trace → Type 0) → Ret → Type 0
    Ends Q r = r.0 ≡ true → Q r.1

    mkdir-Ends :
        (Q : Trace → Type 0) (dir : Dir) (k : Cmd) (t : Trace)
        → Ends Q (k ((mkdir dir 493, true) ∷ t))
        → Ends Q ((call w (mkdir dir 493) >> k) t)
    unfolding call
    mkdir-Ends Q dir k t later =
        elim (w.answer t (mkdir dir 493)) as (λ b. Ends Q (go_on (b, (mkdir dir 493, b) ∷ t) k)) [
          | true ↦ later
          | false ↦ λ h. cc
        ]

    write_str-Ends :
        (Q : Trace → Type 0) (dir : Dir) (k : Cmd) (t : Trace)
        → ((u : Trace) → Grows IsCalm t u → Ends Q (k u))
        → Ends Q ((write_str w dir subtree_control privs >> k) t)
    write_str-Ends Q dir k t later =
        subst (λ r. Ends Q (go_on r k)) (sym (write_str-true dir subtree_control privs t))
          (later (write_str w dir subtree_control privs t).1
            (write_str-Grows dir subtree_control privs t))

    mkdir-Adds : (dir : Dir) → Adds IsCalm (call w (mkdir dir 493))
    mkdir-Adds dir = call-Adds IsCalm w (mkdir dir 493) (λ b. tt)

    -- make_groups from a phase on
    abbrev from_children : Cmd
    from_children =
        call w (mkdir (child supervisors contname) 493)
        >> call w (mkdir (child containers contname) 493)

    abbrev from_control : Cmd
    from_control = write_str w containers subtree_control privs >> from_children

    abbrev from_containers : Cmd
    from_containers = call w (mkdir containers 493) >> from_control

    abbrev from_supervisors : Cmd
    from_supervisors = call w (mkdir supervisors 493) >> from_containers

    abbrev behind_root : Cmd
    behind_root = write_str w vz_root subtree_control privs >> from_supervisors

    from_control-Adds : Adds IsCalm from_control
    from_control-Adds =
        >>-Adds IsCalm (write_str w containers subtree_control privs) from_children
          (write_str-Grows containers subtree_control privs)
          (>>-Adds IsCalm (call w (mkdir (child supervisors contname) 493))
            (call w (mkdir (child containers contname) 493))
            (mkdir-Adds (child supervisors contname)) (mkdir-Adds (child containers contname)))

    from_supervisors-Adds : Adds IsCalm from_supervisors
    from_supervisors-Adds =
        >>-Adds IsCalm (call w (mkdir supervisors 493)) from_containers (mkdir-Adds supervisors) (
          >>-Adds IsCalm (call w (mkdir containers 493)) from_control (mkdir-Adds containers)
            from_control-Adds)

    make_groups-Adds : Adds IsCalm (make_groups w contname)
    unfolding make_groups get_sysfs
    make_groups-Adds =
        >>-Adds IsCalm (call w (mkdir vz_root 493)) behind_root (mkdir-Adds vz_root) (
          >>-Adds IsCalm (write_str w vz_root subtree_control privs) from_supervisors
            (write_str-Grows vz_root subtree_control privs) from_supervisors-Adds)

    -- the last call has no chain behind it
    last_mkdir-Ends :
        (Q : Trace → Type 0) (dir : Dir) (t : Trace)
        → Q ((mkdir dir 493, true) ∷ t)
        → Ends Q (call w (mkdir dir 493) t)
    unfolding call
    last_mkdir-Ends Q dir t q =
        elim (w.answer t (mkdir dir 493)) as (λ b. Ends Q (b, (mkdir dir 493, b) ∷ t)) [
          | true ↦ λ h. q
          | false ↦ λ h. cc
        ]

    make_groups-Ready : (t : Trace) → Ends (Ready contname) (make_groups w contname t)
    unfolding make_groups get_sysfs
    make_groups-Ready t =
        let P = Ready contname in
        let t1 : Trace = (mkdir vz_root 493, true) ∷ t in
        mkdir-Ends P vz_root behind_root t (
          write_str-Ends P vz_root from_supervisors t1 (λ u g.
            let t2 : Trace = (mkdir supervisors 493, true) ∷ u in
            let t3 : Trace = (mkdir containers 493, true) ∷ t2 in
            mkdir-Ends P supervisors from_containers u (
              mkdir-Ends P containers from_control t2 (
                write_str-Ends P containers from_children t3 (λ v g'.
                  let t4 : Trace = (mkdir (child supervisors contname) 493, true) ∷ v in
                  mkdir-Ends P (child supervisors contname)
                    (call w (mkdir (child containers contname) 493)) v
                    (last_mkdir-Ends P (child containers contname) t4 (record {
                      root = inr (
                          inr (
                            Has-Grows (mkdir vz_root 493) t3 v g' (
                              inr
                                (inr (Has-Grows (mkdir vz_root 493) t1 u g (inl (refl, refl)))))));
                      supervisors_made = inr (
                          inr (Has-Grows (mkdir supervisors 493) t3 v g' (inr (inl (refl, refl)))));
                      containers_made =
                          inr (inr (Has-Grows (mkdir containers 493) t3 v g' (inl (refl, refl))));
                      supervisor_made = inr (inl (refl, refl));
                      container_made = inl (refl, refl);
                    })))))))

    -- ---- the move ----

    abbrev IsReady : Trace → Type 0
    IsReady t = Ready contname t × Guarded contname t

    join_group-Guarded :
        (pid : ℕ) (t : Trace)
        → IsReady t
        → Guarded contname (join_group w (child supervisors contname) pid t).1
    unfolding join_group call
    join_group-Guarded pid t (r, g) =
        let dir = child supervisors contname in
        elim (w.answer t (open_file dir procs))
          as (λ b.
            Guarded contname
              (go_on (b, (open_file dir procs, b) ∷ t)
                (λ u.
                  let c = w.answer u (flush dir procs (number pid)) in
                  (c, (flush dir procs (number pid), c) ∷ u))).1) [
                    | true ↦ (
                      (
                        Ready-Grows t ((open_file dir procs, true) ∷ t)
                            (more (open_file dir procs, true) t tt stay) r,
                        refl,
                      ),
                      (tt, g),
                    )
                    | false ↦ (tt, g)
                  ]

    -- a chain whose first part makes ready what the second needs
    go_on-Guarded :
        (r : Ret) (k : Cmd)
        → Guarded contname r.1
        → Ends (Ready contname) r
        → ((t : Trace) → IsReady t → Guarded contname (k t).1)
        → Guarded contname (go_on r k).1
    go_on-Guarded (true, t) k g ready next = next t (ready refl, g)
    go_on-Guarded (false, t) k g ready next = g

    -- Whatever fails, cnt_set_cgroup moves no process before the five directories of the control
    -- groups have been made, and moves it to the group of the container's supervisor.
    pub set_cgroup-Guarded :
        (d : Doubles) (h : Host) (pid : ℕ) (t : Trace)
        → Guarded contname t
        → Guarded contname (set_cgroup w contname d h pid t).1
    unfolding set_cgroup move_to_cgroup get_sysfs
    set_cgroup-Guarded d h pid t g =
        let made = make_groups w contname t in
        let join : Cmd =
          ignoring (join_group w (child supervisors contname) pid) (λ t. (true, t)) in
        go_on-Guarded made (cgroup_limits d w h contname >> join)
          (Guarded-Grows t made.1 (make_groups-Adds t) g) (make_groups-Ready t)
          (λ u ready.
            let r = cgroup_limits d w h contname u in
            let calm = Grows-IsFair u r.1 (cgroup_limits-IsFair d w h contname u) in
            go_on-Guarded r join (Guarded-Grows u r.1 calm ready.1)
              (λ h. Ready-Grows u r.1 calm ready.0) (λ v. join_group-Guarded pid v))
