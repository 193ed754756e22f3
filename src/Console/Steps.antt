-- ===== src/Console/Steps.antt =====
-- What track_console has done when it returns.
use vzgot.Base.{◌≡◌, ◌⊎◌, inl, inr, refl, Bool, true, false, none, some, ◌∷◌, Bool-cases}
use vzgot.Console.{
  open_log, close_log, mount_slave, open_slave, fork, Trace, World, State, track_console,
}

-- the steps that have succeeded, and the one that failed if it is not the fork that succeeded
abbrev pub Ended : World → State → Bool × State → Type 0
Ended w s (isok, t) =
    ((isok ≡ false) × (t.slave ≡ s.slave) × (t.trace ≡ (open_log, false) ∷ s.trace))
    ⊎ ((closed : Bool) × (let linked = (close_log, closed) ∷ (open_log, true) ∷ s.trace in
          ((isok ≡ false) × (t.slave ≡ s.slave) × (t.trace ≡ (mount_slave, false) ∷ linked))
          ⊎ ((isok ≡ false)
              × (t.slave ≡ none)
              × (t.trace ≡ (open_slave, false) ∷ (mount_slave, true) ∷ linked))
          ⊎ ((t.slave ≡ some (w.slave_fd ((mount_slave, true) ∷ linked)))
              × (t.trace ≡ (fork, isok) ∷ (open_slave, true) ∷ (mount_slave, true) ∷ linked))))

-- track_console opens the log, closes it again, mounts the slave terminal over the console, opens
-- it, and forks the logger. It returns true if and only if it came to the fork and the fork
-- succeeded; after a step that fails it makes no other call. The slave's descriptor is the opened
-- one also when the fork fails, -1 when its opening fails, and else as it was.
pub track_console-Ended : (w : World) (s : State) → Ended w s (track_console w s)
unfolding track_console
track_console-Ended w s = elim (Bool-cases (w.answer s.trace open_log)) [
  | inr fails ↦ rw fails (inl (refl, refl, refl))
  | inl opened ↦
      let t : Trace = (open_log, true) ∷ s.trace in
      let linked : Trace = (close_log, w.answer t close_log) ∷ t in
      elim (Bool-cases (w.answer linked mount_slave)) [
        | inr fails ↦ rw (opened, fails) (inr (_, inl (refl, refl, refl)))
        | inl mounted ↦ elim (Bool-cases (w.answer ((mount_slave, true) ∷ linked) open_slave)) [
          | inr fails ↦ rw (opened, mounted, fails) (inr (_, inr (inl (refl, refl, refl))))
          | inl there ↦ rw (opened, mounted, there) (inr (_, inr (inr (refl, refl))))
        ]
      ]
]
