-- ===== src/NetNs.antt =====
-- Reading an address in a container's network namespace: ns_get_ip_num of lib/utlsys.c. The state
-- is the namespace that the process is in and the two descriptors; which calls succeed, and what
-- get_ip_num finds in a namespace, are parameters.
pub mod Restore
mod Examples
use vzgot.Base.{Bool, true, false, Option, none, some, if◌then◌else◌}
use vzgot.Text.{Bytes}

pub data Space : Type 0 where
  host container : Space

pub record Process : Type 0 where
  pub space : Space
  pub host_open : Bool
  pub cont_open : Bool

pub record World : Type 0 where
  pub opens_host : Bool
  pub opens_cont : Bool
  -- `setns` into the container's namespace, and back
  pub enters : Bool
  pub returns : Bool
  -- what get_ip_num gives for the interface in that namespace
  pub ip_num : Space → Option Bytes

-- the address, and the process
abbrev pub Result : Type 0
Result = Option Bytes × Process

module _ (w : World) where
  -- phase 4; a `setns` that fails is only logged
  unfoldable pub come_back : Option Bytes → Process → Result
  come_back ip s = (
    ip,
    record { space = if w.returns then host else s.space; host_open = false; cont_open = false },
  )

  -- phases 2 and 3
  unfoldable pub enter : Process → Result
  unfolding come_back
  enter s =
      if w.enters
      then come_back (w.ip_num container) (record s { space = container })
      else (none, record s { cont_open = false; host_open = false })

  -- phase 1
  unfoldable pub open_container : Process → Result
  unfolding enter
  open_container s =
      if w.opens_cont
      then enter (record s { cont_open = true })
      else (none, record s { host_open = false })

  -- phase 0
  unfoldable pub get_ip_num : Process → Result
  unfolding open_container
  get_ip_num s = if w.opens_host then open_container (record s { host_open = true }) else (none, s)
