-- ===== src/Clone/Confine.antt =====
-- What has been called when the container's init starts, and when doboot gives up.
use vzgot.Base.{
  ℕ, zero, suc, ◌<◌, ◌≡◌, ◌⊎◌, inl, inr, refl, Bool, true, false, Option, none, some, List, [], ◌∷◌,
  ◌++◌, ltb, if◌then◌else◌, arith, ap, subst, pos, negsuc, All, Bool-cases,
}
use vzgot.Text.{Bytes}
use vzgot.Clone.{
  Op, read_clearance, personality, unshare, pdeathsig, set_boot_time, private_root, set_rootfs_dir,
  bind_rootfs, mount_proc, mount_sys, mount_run, get_memfd, bind_dev, mount_cgroup, chdir_rootfs,
  pivot_root, chdir_root, umount_old, rmdir_old, monitoring, sleep, open_console, open_null, exec,
  dup2, close, Trace, World, Process, Out, through, toobad, replaced, ◌>>◌, log_call, must, must_or,
  File, null, console, Persona, persona_of, set_persona, set_arch, confine, dup_to, dup_std,
  close_fd, opened, to_null, to_console, exec_init, start_init, phases, leave, doboot, start_clone,
}

-- the steps behind the architecture that have to succeed before init starts, in order
abbrev pub steps : List Op
steps =
    unshare ∷ pdeathsig ∷ set_boot_time ∷ private_root ∷ set_rootfs_dir ∷ bind_rootfs ∷ mount_proc
    ∷ mount_sys ∷ mount_run ∷ get_memfd ∷ bind_dev ∷ mount_cgroup ∷ chdir_rootfs ∷ pivot_root
    ∷ chdir_root ∷ umount_old ∷ rmdir_old ∷ monitoring ∷ []

-- the trace behind `ops`, all of which succeeded
abbrev pub done : List Op → Trace → Trace
done [] t = t
done (op ∷ ops) t = done ops ((op, true) ∷ t)

-- the trace when the step behind the first `n` of `ops` failed
abbrev pub failed : ℕ → List Op → Trace → Trace
failed n [] t = t
failed zero (op ∷ ops) t = (op, false) ∷ t
failed (suc n) (op ∷ ops) t = failed n ops ((op, true) ∷ t)

-- the calls that point the standard descriptors at the console
abbrev pub Std : Op → Type 0
Std sleep = Unit
Std open_console = Unit
Std open_null = Unit
Std (dup2 _ _) = Unit
Std (close _) = Unit
Std _ = ⊥

abbrev pub AllStd : Trace → Type 0
AllStd = All (λ e. Std e.0)

-- `t` is `earlier` behind calls for the standard descriptors
abbrev pub StdBehind : Trace → Trace → Type 0
StdBehind earlier t = (std : Trace) × AllStd std × (t ≡ std ++ earlier)

-- how a chain of phases ends: what holds through, at TOOBAD, and of a replaced process
abbrev Ends : (Process → Type 0) → (Process → Type 0) → (Process → Type 0) → Out → Type 0
Ends P Q R (through s) = P s
Ends P Q R (toobad s) = Q s
Ends P Q R (replaced s) = R s

Stops : Trace → Process → Type 0
Stops t s = (n : ℕ) × (n < 18) × (s.trace ≡ failed n steps t)

abbrev Never : Process → Type 0
Never s = ⊥

-- init took the process over behind `earlier` and calls for the standard descriptors
abbrev pub InitRuns : Trace → Process → Type 0
InitRuns earlier s = (std : Trace) × AllStd std × (s.trace ≡ (exec, true) ∷ std ++ earlier)

abbrev pub InitFailed : Trace → Process → Type 0
InitFailed earlier s = (std : Trace) × AllStd std × (s.trace ≡ (exec, false) ∷ std ++ earlier)

-- every step succeeded, and init took the process over
abbrev pub Booted : Persona → Trace → Process → Type 0
Booted p earlier = InitRuns (done (personality p ∷ steps) earlier)

-- a step failed and nothing was called behind it, or init could not be executed
abbrev pub Halted : Persona → Trace → Process → Type 0
Halted p earlier s =
    ((n : ℕ) × (n < 19) × (s.trace ≡ failed n (personality p ∷ steps) earlier))
    ⊎ InitFailed (done (personality p ∷ steps) earlier) s

abbrev pub InitStarted : Bytes → Trace → Process → Type 0
InitStarted arch earlier s = (p : Persona) × (persona_of arch ≡ some p) × Booted p earlier s

abbrev pub GivenUp : Bytes → Trace → Process → Type 0
GivenUp arch earlier s =
    ((persona_of arch ≡ none) × (s.trace ≡ earlier))
    ⊎ ((p : Persona) × (persona_of arch ≡ some p) × Halted p earlier s)

-- how doboot ends
abbrev pub Outcome : Bytes → Trace → Out → Type 0
Outcome arch earlier (through s) = (s.status ≡ pos 1) × GivenUp arch earlier s
Outcome arch earlier (toobad s) = ⊥
Outcome arch earlier (replaced s) = InitStarted arch earlier s

module _ (w : World) where
  must-Ends :
      (P Q R : Process → Type 0) (op : Op) (s : Process) (k : Process → Out)
      → Q (log_call op false s)
      → Ends P Q R (k (log_call op true s))
      → Ends P Q R ((must w op >> k) s)
  must-Ends P Q R op s k q p =
      elim (w.answer s.trace op)
        as (λ b.
          Ends P Q R
            (◌>>◌ (λ _. if b then through (log_call op b s) else toobad (log_call op b s)) k s)) [
              | true ↦ p
              | false ↦ q
            ]

  must_or-Ends :
      (P Q R : Process → Type 0) (op : Op) (s : Process) (k : Process → Out)
      → Q (record (log_call op false s) { status = negsuc 1 })
      → Ends P Q R (k (log_call op true s))
      → Ends P Q R ((must_or w (negsuc 1) op >> k) s)
  must_or-Ends P Q R op s k q p =
      elim (w.answer s.trace op)
        as (λ b. Ends P Q R (
          ◌>>◌
            (λ _.
              if b
              then through (log_call op b s)
              else toobad (record (log_call op b s) { status = negsuc 1 }))
            k s)) [ true ↦ p | false ↦ q ]

  must_last-Ends :
      (P Q R : Process → Type 0) (op : Op) (s : Process)
      → Q (log_call op false s)
      → P (log_call op true s)
      → Ends P Q R (must w op s)
  must_last-Ends P Q R op s q p =
      elim (w.answer s.trace op)
        as (λ b. Ends P Q R (if b then through (log_call op b s) else toobad (log_call op b s))) [
          | true ↦ p
          | false ↦ q
        ]

  confine-Ends :
      (s : Process) → Ends (λ t. t.trace ≡ done steps s.trace) (Stops s.trace) Never (confine w s)
  unfolding confine Stops
  confine-Ends s =
      let P = λ (t : Process). t.trace ≡ done steps s.trace in
      let stop =
        λ (op : Op) (u : Process) (k : Process → Out). must-Ends P (Stops s.trace) Never op u k in
      must_or-Ends P (Stops s.trace) Never unshare _ _ (0, omega arith, refl)
        (stop pdeathsig _ _ (1, omega arith, refl)
          (stop set_boot_time _ _ (2, omega arith, refl)
            (stop private_root _ _ (3, omega arith, refl)
              (stop set_rootfs_dir _ _ (4, omega arith, refl)
                (stop bind_rootfs _ _ (5, omega arith, refl)
                  (stop mount_proc _ _ (6, omega arith, refl)
                    (stop mount_sys _ _ (7, omega arith, refl)
                      (stop mount_run _ _ (8, omega arith, refl)
                        (stop get_memfd _ _ (9, omega arith, refl)
                          (stop bind_dev _ _ (10, omega arith, refl)
                            (stop mount_cgroup _ _ (11, omega arith, refl)
                              (stop chdir_rootfs _ _ (12, omega arith, refl)
                                (stop pivot_root _ _ (13, omega arith, refl)
                                  (stop chdir_root _ _ (14, omega arith, refl)
                                    (stop umount_old _ _ (15, omega arith, refl)
                                      (stop rmdir_old _ _ (16, omega arith, refl)
                                        (must_last-Ends P (Stops s.trace) Never monitoring _
                                          (17, omega arith, refl) refl)))))))))))))))))

  -- ---- the standard descriptors ----

  StdBehind-call :
      (earlier : Trace) (op : Op) (b : Bool) (s : Process)
      → Std op
      → StdBehind earlier s.trace
      → StdBehind earlier (log_call op b s).trace
  StdBehind-call earlier op b s i h = ((op, b) ∷ h.0, (i, h.1), ap (λ (t : Trace). (op, b) ∷ t) h.2)

  dup_to-StdBehind :
      (earlier : Trace) (fd target : ℕ) (s : Process)
      → StdBehind earlier s.trace
      → StdBehind earlier (dup_to w fd target s).trace
  unfolding dup_to
  dup_to-StdBehind earlier fd target s h =
      let b = w.answer s.trace (dup2 fd target) in
      elim (Bool-cases b) [
        | inl ok ↦ rw ok (StdBehind-call earlier (dup2 fd target) true s tt h)
        | inr not_ok ↦ rw not_ok (StdBehind-call earlier (dup2 fd target) false s tt h)
      ]

  dup_std-StdBehind :
      (earlier : Trace) (fd : ℕ) (s : Process)
      → StdBehind earlier s.trace
      → StdBehind earlier (dup_std w fd s).trace
  unfolding dup_std
  dup_std-StdBehind earlier fd s h =
      let t = dup_to w fd 0 s in
      dup_to-StdBehind earlier fd 2 (dup_to w fd 1 t)
        (dup_to-StdBehind earlier fd 1 t (dup_to-StdBehind earlier fd 0 s h))

  close_fd-StdBehind :
      (earlier : Trace) (fd : ℕ) (s : Process)
      → StdBehind earlier s.trace
      → StdBehind earlier (close_fd w fd s).trace
  unfolding close_fd
  close_fd-StdBehind earlier fd s h = StdBehind-call earlier (close fd) _ s tt h

  opened-StdBehind :
      (earlier : Trace) (op : Op) (f : File) (fd : ℕ) (s : Process)
      → Std op
      → StdBehind earlier s.trace
      → StdBehind earlier (dup_std w fd (opened w op f s)).trace
  unfolding opened
  opened-StdBehind earlier op f fd s i h =
      dup_std-StdBehind earlier fd (opened w op f s) (StdBehind-call earlier op true s i h)

  if_behind :
      (earlier : Trace) (b : Bool) (s t : Process)
      → StdBehind earlier s.trace
      → StdBehind earlier t.trace
      → StdBehind earlier (if b then s else t).trace
  if_behind earlier true s t hs ht = hs
  if_behind earlier false s t hs ht = ht

  to_null-StdBehind :
      (earlier : Trace) (s : Process)
      → StdBehind earlier s.trace
      → StdBehind earlier (to_null w s).trace
  unfolding to_null
  to_null-StdBehind earlier s h =
      let fd = w.new_fd s.trace in
      if_behind earlier (w.answer s.trace open_null)
        (close_fd w fd (dup_std w fd (opened w open_null null s))) (log_call open_null false s)
        (close_fd-StdBehind earlier fd (dup_std w fd (opened w open_null null s))
          (opened-StdBehind earlier open_null null fd s tt h))
        (StdBehind-call earlier open_null false s tt h)

  to_console-StdBehind :
      (earlier : Trace) (s : Process)
      → StdBehind earlier s.trace
      → StdBehind earlier (to_console w s).trace
  unfolding to_console
  to_console-StdBehind earlier s h =
      let fd = w.new_fd s.trace in
      let t = dup_std w fd (opened w open_console console s) in
      let ht = opened-StdBehind earlier open_console console fd s tt h in
      if_behind earlier (w.answer s.trace open_console) (if ltb 2 fd then close_fd w fd t else t)
        (to_null w (log_call open_console false s))
        (if_behind earlier (ltb 2 fd) (close_fd w fd t) t (close_fd-StdBehind earlier fd t ht) ht)
        (to_null-StdBehind earlier (log_call open_console false s)
          (StdBehind-call earlier open_console false s tt h))

  -- ---- the whole ----

  start_init-Ends :
      (s : Process) → Ends Never (InitFailed s.trace) (InitRuns s.trace) (start_init w s)
  unfolding start_init exec_init
  start_init-Ends s =
      let t = log_call sleep (w.answer s.trace sleep) s in
      let (std, all, e) = to_console-StdBehind s.trace t ((sleep, _) ∷ [], (tt, tt), refl) in
      elim (w.answer (to_console w t).trace exec)
        as (λ b. Ends Never (InitFailed s.trace) (InitRuns s.trace) (
          if b
          then replaced (log_call exec b (to_console w t))
          else toobad (log_call exec b (to_console w t)))) [
            | true ↦ (std, all, ap (λ (z : Trace). (exec, true) ∷ z) e)
            | false ↦ (std, all, ap (λ (z : Trace). (exec, false) ∷ z) e)
          ]

  behind_arch :
      (p : Persona) (s : Process)
      → Ends Never
          (Halted p s.trace)
          (Booted p s.trace)
          ((confine w >> start_init w) (log_call (personality p) true s))
  unfolding Stops
  behind_arch p s = go (confine w t) (confine-Ends t)
    where
      t : Process
      t = log_call (personality p) true s

      weaken :
          (R : Process → Type 0) (o : Out)
          → Ends Never (InitFailed (done (personality p ∷ steps) s.trace)) R o
          → Ends Never (Halted p s.trace) R o
      weaken R (through u) h = h
      weaken R (toobad u) h = inr h
      weaken R (replaced u) h = h

      go :
          (o : Out)
          → Ends (λ u. u.trace ≡ done steps t.trace) (Stops t.trace) Never o
          → Ends Never (Halted p s.trace) (Booted p s.trace) (◌>>◌ (λ _. o) (start_init w) t)
      go (through u) h =
          subst (λ z. Ends Never (Halted p s.trace) (InitRuns z) (start_init w u)) h
            (weaken (InitRuns u.trace) (start_init w u) (
              subst (λ z. Ends Never (InitFailed z) (InitRuns u.trace) (start_init w u)) h
                (start_init-Ends u)))
      go (toobad u) (n, lt, e) = inl (suc n, omega arith, e)
      go (replaced u) h = absurd h

  named :
      (arch : Bytes) (p : Persona) (earlier : Trace)
      → persona_of arch ≡ some p
      → (o : Out) → Ends Never (Halted p earlier) (Booted p earlier) o
      → Ends Never (GivenUp arch earlier) (InitStarted arch earlier) o
  named arch p earlier e (through u) h = h
  named arch p earlier e (toobad u) h = inr (p, e, h)
  named arch p earlier e (replaced u) h = (p, e, h)

  phases-Ends :
      (arch : Bytes) (s : Process)
      → Ends Never (GivenUp arch s.trace) (InitStarted arch s.trace) (phases w arch s)
  unfolding phases set_arch
  phases-Ends arch s = go (persona_of arch) refl
    where
      go :
          (o : Option Persona)
          → persona_of arch ≡ o
          → Ends Never
              (GivenUp arch s.trace)
              (InitStarted arch s.trace)
              (◌>>◌ (set_persona w o) (confine w >> start_init w) s)
      go none e = unfold set_persona in (inl (e, refl))
      go (some p) e =
          unfold set_persona in
          must-Ends Never (GivenUp arch s.trace) (InitStarted arch s.trace) (personality p) s _
            (inr (p, e, inl (0, omega arith, refl))) (named arch p s.trace e _ (behind_arch p s))

  -- When doboot ends, one of two things has happened. Either init runs, and the personality was
  -- set and every step of the confinement succeeded before, in order, with only calls for the
  -- standard descriptors in between; or doboot returns 1, and the architecture is unknown, or the
  -- personality or a step failed and nothing was called after it, or init could not be executed.
  pub doboot-Outcome : (arch : Bytes) (s : Process) → Outcome arch s.trace (doboot w arch s)
  unfolding doboot
  doboot-Outcome arch s = go (phases w arch (record s { status = pos 0 })) (phases-Ends arch _)
    where
      go :
          (o : Out)
          → Ends Never (GivenUp arch s.trace) (InitStarted arch s.trace) o
          → Outcome arch s.trace (leave w o)
      go (through u) h = absurd h
      go (toobad u) h = (refl, h)
      go (replaced u) h = h

  -- The first calls of the clone close the slave terminal and the pipe's write end, and then read
  -- one byte from the pipe. If there is none it exits with -1 and makes no other call. Otherwise
  -- it ends as doboot does behind these three calls: init runs behind a full confinement, or the
  -- exit status is 1 behind the first failure.
  pub start_clone-Outcome :
      (arch : Bytes) (slave_fd sync1 : ℕ) (s : Process)
      → (b1 b2 : Bool) × (((t : Process) × (start_clone w arch slave_fd sync1 s ≡ through t)
            × (t.status ≡ negsuc 0)
            × (t.trace
                ≡ (read_clearance, false) ∷ (close sync1, b1) ∷ (close slave_fd, b2) ∷ s.trace))
          ⊎ Outcome arch
              ((read_clearance, true) ∷ (close sync1, b1) ∷ (close slave_fd, b2) ∷ s.trace)
              (start_clone w arch slave_fd sync1 s))
  unfolding start_clone close_fd
  start_clone-Outcome arch slave_fd sync1 s =
      let t = close_fd w sync1 (close_fd w slave_fd s) in
      let b2 = w.answer s.trace (close slave_fd) in
      let b1 = w.answer ((close slave_fd, b2) ∷ s.trace) (close sync1) in
      (
        b1,
        b2,
        elim (Bool-cases (w.answer t.trace read_clearance)) [
          | inl cleared ↦ inr (rw cleared (doboot-Outcome arch (log_call read_clearance true t)))
          | inr none_came ↦ inl (
            record (log_call read_clearance false t) { status = negsuc 0 },
            rw none_came,
            refl,
            refl,
          )
        ],
      )
