-- ===== src/Memfd.antt =====
-- The copy of a file in memory, lib/utlsys.c: sys_get_memfd.
pub mod Closed
mod Examples
use vzgot.Base.{Bool, true, false, Option, none, some, List, [], ◌∷◌, if◌then◌else◌}

-- the calls made: `open`, `fstat`, `memfd_create`, `sendfile`, `lseek` and the two of `close`
pub data Op : Type 0 where
  open_src fstat memfd_create sendfile lseek close_src close_mem : Op

-- The newest call first. The number of bytes that `sendfile` gives is not compared.
abbrev pub Trace : Type 0
Trace = List Op

-- whether a call succeeds
pub record World : Type 0 where
  pub answer : Trace → Op → Bool

-- whether the descriptor of the memory file is returned
abbrev pub Ret : Type 0
Ret = Bool × Trace

module _ (w : World) where
  -- phase 4
  unfoldable pub rewind : Trace → Ret
  rewind t = if w.answer t lseek then (true, lseek ∷ t) else (false, close_mem ∷ lseek ∷ t)

  -- phase 3
  unfoldable pub transfer : Trace → Ret
  unfolding rewind
  transfer t =
      let sent = rewind (close_src ∷ sendfile ∷ t) in
      if w.answer t sendfile then sent else (false, close_src ∷ close_mem ∷ sendfile ∷ t)

  -- phase 2
  unfoldable pub create : Trace → Ret
  unfolding transfer
  create t =
      let created = transfer (memfd_create ∷ t) in
      if w.answer t memfd_create then created else (false, close_src ∷ memfd_create ∷ t)

  -- phase 1
  unfoldable pub extract_status : Trace → Ret
  unfolding create
  extract_status t =
      let known = create (fstat ∷ t) in
      if w.answer t fstat then known else (false, close_src ∷ fstat ∷ t)

  unfoldable pub get_memfd : Trace → Ret
  unfolding extract_status
  get_memfd t =
      let opened = extract_status (open_src ∷ t) in
      if w.answer t open_src then opened else (false, open_src ∷ t)
