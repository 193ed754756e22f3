-- ===== src/Devices.antt =====
-- The devices and the id maps of a container, lib/unicnt.c: cnt_set_sup_devices,
-- cnt_unset_sup_devices and cnt_mapcontids, and apl_get_specdevs of lib/lowapl.c. The calls and
-- their answers are the trace; what a call answers is the world's choice, and may depend on all
-- that was called before. do_mkdir, which Rootfs models, is one call here.
pub mod Told
mod Examples
use vzgot.Base.{ℕ, zero, suc, Bool, true, false, ◌&&◌, List, [], ◌∷◌, if◌then◌else◌}
use vzgot.Text.{Bytes, codes}

-- the table of apl_get_specdevs
abbrev pub specdevs : List Bytes
specdevs =
    codes "cpuinfo"
    ∷ codes "lastpid"
    ∷ codes "loadavg"
    ∷ codes "meminfo"
    ∷ codes "swaps"
    ∷ codes "acpi"
    ∷ codes "bus"
    ∷ codes "interrupts"
    ∷ codes "ioports"
    ∷ codes "kcore"
    ∷ codes "mdstat"
    ∷ codes "modules"
    ∷ codes "partitions"
    ∷ codes "sysrq-trigger"
    ∷ []

-- a file below /proc/<clonepid>
pub data IdFile : Type 0 where
  uid_map setgroups gid_map : IdFile

pub data Op : Type 0 where
  make_dev mount_dev copy_devref umount_dev link_fd : Op
  create : Bytes → Op
  open_map : IdFile → Op
  -- "0 %d 65536", or "allow"
  write_map : IdFile → ℕ → Op
  write_allow : IdFile → Op

-- `busy` is EBUSY, `fails` any other error
pub data Answer : Type 0 where
  ok busy fails : Answer

-- the newest call comes first
abbrev pub Trace : Type 0
Trace = List (Op × Answer)

pub record World : Type 0 where
  pub answer : Trace → Op → Answer

abbrev pub Ret : Type 0
Ret = Bool × Trace

abbrev pub Cmd : Type 0
Cmd = Trace → Ret

-- `goto TOOBAD` where the first fails
abbrev pub go_on : Ret → Cmd → Ret
go_on (true, t) k = k t
go_on (false, t) k = (false, t)

infixl 5 ◌>>◌
abbrev pub ◌>>◌ : Cmd → Cmd → Cmd
◌>>◌ m k t = go_on (m t) k

-- which answers let the phases go on
abbrev pub is_ok : Answer → Bool
is_ok ok = true
is_ok busy = false
is_ok fails = false

abbrev pub is_ok_or_busy : Answer → Bool
is_ok_or_busy ok = true
is_ok_or_busy busy = true
is_ok_or_busy fails = false

module _ (w : World) where
  unfoldable pub call : Op → (Answer → Bool) → Cmd
  call op good t = let a = w.answer t op in (good a, (op, a) ∷ t)

  -- ---- cnt_set_sup_devices ----

  -- phase 2: a failing copy unmounts the directory
  unfoldable pub copied : Answer → Cmd
  copied ok = λ t. (true, t)
  copied busy = λ t. (false, (call umount_dev is_ok t).1)
  copied fails = λ t. (false, (call umount_dev is_ok t).1)

  unfoldable pub copy_devices : Cmd
  unfolding copied
  copy_devices t = let a = w.answer t copy_devref in copied a ((copy_devref, a) ∷ t)

  -- phase 3: errors are only logged
  unfoldable pub create_all : List Bytes → Cmd
  create_all [] = λ t. (true, t)
  create_all (name ∷ names) = λ t. create_all names (call (create name) is_ok t).1

  unfoldable pub set_sup_devices : Cmd
  unfolding copy_devices create_all
  set_sup_devices = do
    call make_dev is_ok
    call mount_dev is_ok_or_busy
    copy_devices
    create_all specdevs
    call link_fd is_ok_or_busy

  unfoldable pub unset_sup_devices : Cmd
  unset_sup_devices = call umount_dev is_ok

  -- ---- cnt_mapcontids ----

  abbrev pub store_op : ℕ → ℕ → IdFile → Op
  store_op contuid contgid uid_map = write_map uid_map contuid
  store_op contuid contgid setgroups = write_allow setgroups
  store_op contuid contgid gid_map = write_map gid_map contgid

  -- the loop of phase 2: it stops at a file that cannot be opened, and a failing write is told at
  -- the end
  unfoldable pub store_maps : ℕ → ℕ → List IdFile → Bool → Cmd
  store_maps contuid contgid [] good t = (good, t)
  store_maps contuid contgid (file ∷ files) good t =
      let opened = call (open_map file) is_ok t in
      let written = call (store_op contuid contgid file) is_ok opened.1 in
      let rest = store_maps contuid contgid files (good && written.0) written.1 in
      if opened.0 then rest else (false, opened.1)

  unfoldable pub mapcontids : ℕ → ℕ → Cmd
  unfolding store_maps
  mapcontids contuid contgid = store_maps contuid contgid (uid_map ∷ setgroups ∷ gid_map ∷ []) true
