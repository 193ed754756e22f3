-- ===== src/Command/Dispatch.antt =====
-- Which procedure action chooses for a word.
use vzgot.Base.{
  ℕ, ◌≡◌, ◌≢◌, refl, subst, ◌++◌, if◌then◌else◌, Bool-cases, inl, inr, suc, false, ltb, length,
  Bool, true, ◌&&◌, some, List, [], ◌∷◌, get_elem?, append-nil, arith,
}
use vzgot.Text.{Bytes, codes, Voc, getvoca, is_alnum, to_lower, starts_alnum, skip_spaces}
use vzgot.Text.Voca.{same_word, Word, Words, absent, distinct, getvoca_finds, getvoca_unknown}
use vzgot.Command.{
  Script, vzon, vzoff, vznew, vzdest, vzfree, vzlist, vzmove, vzup, vzsleep, vzstand, vzrbld,
  initscript, booted, slept, Result, name, others, params, cont_shutdown, vzexec, vzstatus,
  vzscript, doreboot, create, create_args, destroy, usage, Trace, World, Action, a_boot, a_onboot,
  a_offboot, a_reboot, a_shutdown, a_create, a_destroy, a_enter, a_exec, a_freeze, a_list,
  a_movefrom, a_online, a_sleep, a_standby, a_status, a_rebuild, a_unknown, vocaction, action_of,
  proceed, action,
}

-- the words that usage prints, and those of the other actions
unfoldable pub word_of : Action → Bytes
word_of a_boot = codes "boot"
word_of a_onboot = codes "onboot"
word_of a_offboot = codes "offboot"
word_of a_reboot = codes "reboot"
word_of a_shutdown = codes "shutdown"
word_of a_create = codes "create"
word_of a_destroy = codes "destroy"
word_of a_enter = codes "enter"
word_of a_exec = codes "exec"
word_of a_freeze = codes "freeze"
word_of a_list = codes "list"
word_of a_movefrom = codes "movefrom"
word_of a_online = codes "online"
word_of a_sleep = codes "sleep"
word_of a_standby = codes "standby"
word_of a_status = codes "status"
word_of a_rebuild = codes "rebuild"
word_of a_unknown = []

vocaction-distinct : distinct vocaction ≡ true
unfolding distinct absent same_word to_lower
vocaction-distinct = refl

-- whether all are letters or digits
unfoldable is_word : Bytes → Bool
is_word [] = true
is_word (c ∷ s) = is_alnum c && is_word s

-- whether all are letters and digits
unfoldable are_words : List Voc → Bool
are_words [] = true
are_words (v ∷ table) = is_word v.key && are_words table

is_word-Word : (s : Bytes) → is_word s ≡ true → Word s
unfolding is_word
is_word-Word [] h = tt
is_word-Word (c ∷ s) h = (ground arith, is_word-Word s (ground arith))

are_words-Words : (table : List Voc) → are_words table ≡ true → Words table
unfolding are_words
are_words-Words [] h = tt
are_words-Words (v ∷ table) h =
    (is_word-Word v.key (ground arith), are_words-Words table (ground arith))

vocaction-Words : Words vocaction
unfolding are_words is_word is_alnum
vocaction-Words = are_words-Words vocaction refl

-- behind a key of at least one byte
same_word-key : (k : ℕ) (key word : Bytes) → same_word (k ∷ key) word ≡ true → word ≢ []
unfolding same_word
same_word-key k key [] h e = cc
same_word-key k key (c ∷ word) h e = cc

module _ (w : World) where
  -- one script on all arguments, with status 1 if it fails
  abbrev pub runs : Script → List Bytes → Trace → Result
  runs script argv t =
      (some (if w.scripts t then 0 else 1), initscript script (params argv) (w.scripts t) ∷ t)

  -- a boot on all arguments, with its status
  abbrev pub boots_on : List Bytes → Trace → Result
  boots_on argv t = (some (w.boots t argv), booted argv (w.boots t argv) ∷ t)

  abbrev pub answered : ℕ × Trace → Result
  answered (status, t) = (some status, t)

  -- what each word promises to do, with the arguments behind it
  unfoldable pub promised : Action → List Bytes → Trace → Result
  promised a_boot argv t = boots_on argv t
  promised a_reboot argv t = boots_on argv (slept ∷ (cont_shutdown w (name argv) t).1)
  promised a_shutdown argv t = answered (cont_shutdown w (name argv) t)
  promised a_onboot argv t = runs vzon argv t
  promised a_offboot argv t = runs vzoff argv t
  promised a_list argv t = runs vzlist argv t
  promised a_online argv t = runs vzup argv t
  promised a_freeze argv t = runs vzfree argv t
  promised a_sleep argv t = runs vzsleep argv t
  promised a_standby argv t = runs vzstand argv t
  promised a_movefrom argv t = runs vzmove argv t
  promised a_rebuild argv t = runs vzrbld argv t
  promised a_exec argv t = answered (vzexec w (name argv) (others argv) t)
  promised a_enter argv t = answered (vzexec w (name argv) (codes "/bin/sh" ∷ []) t)
  promised a_status argv t = vzstatus w argv t
  -- a missing name is refused; the name and one more argument go to the script
  promised a_create [] t = (some 1, t)
  promised a_create (contname ∷ []) t =
      (some (if w.scripts t then 0 else 2), initscript vznew contname (w.scripts t) ∷ t)
  promised a_create (contname ∷ template ∷ argv) t = (
    some (if w.scripts t then 0 else 2),
    initscript vznew (contname ++ b' ' ∷ template) (w.scripts t) ∷ t,
  )
  promised a_destroy [] t = (some 1, t)
  promised a_destroy (contname ∷ argv) t = (some 0, initscript vzdest contname (w.scripts t) ∷ t)
  promised a_unknown argv t = (some 1, usage ∷ t)

  proceed-promised :
      (a : Action) (argv : List Bytes) (t : Trace) → proceed w a argv t ≡ promised a argv t
  unfolding proceed promised vzscript doreboot create create_args destroy
  proceed-promised a_boot argv t = refl
  proceed-promised a_onboot argv t = refl
  proceed-promised a_offboot argv t = refl
  proceed-promised a_reboot argv t = refl
  proceed-promised a_shutdown argv t = refl
  proceed-promised a_create [] t = refl
  proceed-promised a_create (a ∷ []) t = elim (Bool-cases (w.scripts t)) [
    | inl ok ↦ rw ok refl
    | inr bad ↦ rw bad refl
  ]
  proceed-promised a_create (a ∷ b ∷ argv) t =
      let named : ltb (suc (suc (length argv))) 1 ≡ false = ground arith in
      elim (Bool-cases (w.scripts t)) [
        | inl ok ↦ rw (named, ok) refl
        | inr bad ↦ rw (named, bad) refl
      ]
  proceed-promised a_destroy [] t = refl
  proceed-promised a_destroy (a ∷ argv) t = refl
  proceed-promised a_enter argv t = refl
  proceed-promised a_exec argv t = refl
  proceed-promised a_freeze argv t = refl
  proceed-promised a_list argv t = refl
  proceed-promised a_movefrom argv t = refl
  proceed-promised a_online argv t = refl
  proceed-promised a_sleep argv t = refl
  proceed-promised a_standby argv t = refl
  proceed-promised a_status argv t = refl
  proceed-promised a_rebuild argv t = refl
  proceed-promised a_unknown argv t = refl

  -- a word is the entry at `i`
  action_at :
      (i : ℕ) {v : Voc} (word : Bytes) (argv : List Bytes) (t : Trace)
      → get_elem? vocaction i ≡ some v
      → same_word v.key word ≡ true
      → Word word
      → word ≢ []
      → action w (word ∷ argv) t ≡ promised (action_of v.code) argv t
  unfolding action
  action_at i {v} word argv t g s h ne =
      let e =
        getvoca_finds 17 vocaction i [] word [] vocaction-distinct vocaction-Words g s tt h ne
          (unfold starts_alnum in refl) in
      let e' : getvoca 17 vocaction word ≡ (v.code, skip_spaces []) =
        subst (λ x. getvoca 17 vocaction x ≡ (v.code, skip_spaces [])) (append-nil word) e in
      rw e' (proceed-promised (action_of v.code) argv t)

  -- Each word of the action vocabulary, in any letter case, does what `promised` says of it, on the
  -- arguments behind it: `boot` boots; `reboot` shuts the container down, waits and boots; `exec`
  -- and `enter` run a command in the container; `status` executes its program; `create` and
  -- `destroy` check for the name; and each of the other words runs its own script.
  pub action-promised :
      (a : Action) (word : Bytes) (argv : List Bytes) (t : Trace)
      → a ≢ a_unknown
      → same_word (word_of a) word ≡ true
      → Word word
      → action w (word ∷ argv) t ≡ promised a argv t
  unfolding word_of action_of
  action-promised a_boot word argv t k s h =
      action_at 0 word argv t refl s h (same_word-key _ _ word s)
  action-promised a_unknown word argv t k s h = absurd (k refl)
  action-promised a_offboot word argv t k s h =
      action_at 1 word argv t refl s h (same_word-key _ _ word s)
  action-promised a_onboot word argv t k s h =
      action_at 2 word argv t refl s h (same_word-key _ _ word s)
  action-promised a_list word argv t k s h =
      action_at 3 word argv t refl s h (same_word-key _ _ word s)
  action-promised a_reboot word argv t k s h =
      action_at 4 word argv t refl s h (same_word-key _ _ word s)
  action-promised a_exec word argv t k s h =
      action_at 5 word argv t refl s h (same_word-key _ _ word s)
  action-promised a_enter word argv t k s h =
      action_at 6 word argv t refl s h (same_word-key _ _ word s)
  action-promised a_freeze word argv t k s h =
      action_at 7 word argv t refl s h (same_word-key _ _ word s)
  action-promised a_create word argv t k s h =
      action_at 8 word argv t refl s h (same_word-key _ _ word s)
  action-promised a_online word argv t k s h =
      action_at 9 word argv t refl s h (same_word-key _ _ word s)
  action-promised a_destroy word argv t k s h =
      action_at 10 word argv t refl s h (same_word-key _ _ word s)
  action-promised a_standby word argv t k s h =
      action_at 11 word argv t refl s h (same_word-key _ _ word s)
  action-promised a_movefrom word argv t k s h =
      action_at 12 word argv t refl s h (same_word-key _ _ word s)
  action-promised a_shutdown word argv t k s h =
      action_at 13 word argv t refl s h (same_word-key _ _ word s)
  action-promised a_sleep word argv t k s h =
      action_at 14 word argv t refl s h (same_word-key _ _ word s)
  action-promised a_status word argv t k s h =
      action_at 15 word argv t refl s h (same_word-key _ _ word s)
  action-promised a_rebuild word argv t k s h =
      action_at 16 word argv t refl s h (same_word-key _ _ word s)

  -- A word of letters and digits that the vocabulary of action lacks prints the usage, calls
  -- nothing, and gives status 1; so does a call without a word.
  pub action_unknown :
      (word : Bytes) (argv : List Bytes) (t : Trace)
      → absent word vocaction ≡ true
      → Word word
      → word ≢ []
      → (action w (word ∷ argv) t ≡ (some 1, usage ∷ t)) × (action w [] t ≡ (some 1, usage ∷ t))
  unfolding action proceed action_of
  action_unknown word argv t gone h ne =
      let e =
        getvoca_unknown 17 vocaction [] word [] gone vocaction-Words tt h ne
          (unfold starts_alnum in refl) in
      let e' : getvoca 17 vocaction word ≡ (17, word) =
        subst (λ x. getvoca 17 vocaction x ≡ (17, x)) (append-nil word) e in
      (rw e' refl, refl)
