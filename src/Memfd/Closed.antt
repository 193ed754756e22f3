-- ===== src/Memfd/Closed.antt =====
-- The descriptors that sys_get_memfd leaves open.
use vzgot.Base.{◌≡◌, refl, Bool, true, false, Bool-cases, [], ◌∷◌, inl, inr}
use vzgot.Memfd.{
  open_src, fstat, memfd_create, sendfile, lseek, close_src, close_mem, Trace, World, Ret, rewind,
  transfer, create, extract_status, get_memfd,
}

module _ (w : World) where
  -- whether the file is open after these calls
  unfoldable pub src_open : Trace → Bool
  src_open [] = false
  src_open (open_src ∷ t) = w.answer t open_src
  src_open (close_src ∷ t) = false
  src_open (op ∷ t) = src_open t

  -- whether the memory file is
  unfoldable pub mem_open : Trace → Bool
  mem_open [] = false
  mem_open (memfd_create ∷ t) = w.answer t memfd_create
  mem_open (close_mem ∷ t) = false
  mem_open (op ∷ t) = mem_open t

  abbrev pub IsClosed : Ret → Type 0
  IsClosed (got, t) = (src_open t ≡ false) × (mem_open t ≡ got)

  rewind-IsClosed : (t : Trace) → src_open t ≡ false → mem_open t ≡ true → IsClosed (rewind w t)
  unfolding rewind src_open mem_open
  rewind-IsClosed t shut made = elim (Bool-cases (w.answer t lseek)) [
    | inl done ↦ rw done (shut, made)
    | inr fails ↦ rw fails (shut, refl)
  ]

  transfer-IsClosed : (t : Trace) → mem_open t ≡ true → IsClosed (transfer w t)
  unfolding transfer src_open mem_open
  transfer-IsClosed t made = elim (Bool-cases (w.answer t sendfile)) [
    | inl done ↦ rw done (rewind-IsClosed (close_src ∷ sendfile ∷ t) refl made)
    | inr fails ↦ rw fails (refl, refl)
  ]

  create-IsClosed : (t : Trace) → mem_open t ≡ false → IsClosed (create w t)
  unfolding create src_open mem_open
  create-IsClosed t unmade = elim (Bool-cases (w.answer t memfd_create)) [
    | inl done ↦ rw done (transfer-IsClosed (memfd_create ∷ t) done)
    | inr fails ↦ rw fails (refl, fails)
  ]

  extract_status-IsClosed : (t : Trace) → mem_open t ≡ false → IsClosed (extract_status w t)
  unfolding extract_status src_open mem_open
  extract_status-IsClosed t unmade = elim (Bool-cases (w.answer t fstat)) [
    | inl done ↦ rw done (create-IsClosed (fstat ∷ t) unmade)
    | inr fails ↦ rw fails (refl, unmade)
  ]

  -- Where neither file is open before the call, sys_get_memfd leaves the file that it copies
  -- closed, and the memory file open exactly when it returns its descriptor, whichever of its
  -- calls fails.
  pub get_memfd-IsClosed :
      (t : Trace) → src_open t ≡ false → mem_open t ≡ false → IsClosed (get_memfd w t)
  unfolding get_memfd src_open mem_open
  get_memfd-IsClosed t shut unmade = elim (Bool-cases (w.answer t open_src)) [
    | inl done ↦ rw done (extract_status-IsClosed (open_src ∷ t) unmade)
    | inr fails ↦ rw fails (fails, unmade)
  ]
