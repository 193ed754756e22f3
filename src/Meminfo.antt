-- ===== src/Meminfo.antt =====
-- The container's view of /proc/meminfo and /proc/swaps: setmeminfo and setswapsinfo of
-- lib/unicnt.c, with prc_getcgroupmem of lib/subprc.c and sys_read_sys_long of lib/utlsys.c. A
-- `u_vlong` is a number below 2 ^ 64, and the arithmetic on it wraps. The lines written are labels
-- with the numbers that fprintf prints behind them.
pub mod Report
mod Examples
use vzgot.Base.{
  ℕ, zero, suc, ◌+◌, ◌-◌, ◌*◌, ◌/◌, ◌%◌, ◌^◌, Bool, true, false, ◌&&◌, Option, none, some, List, [],
  ◌∷◌, take, ltb, if◌then◌else◌,
}
use vzgot.Text.{Bytes, codes, c_str, is_space}
use vzgot.Template.Voc.{begins}

abbrev pub sub64 : ℕ → ℕ → ℕ
sub64 a b = (a + (2 ^ 64 - b)) % 2 ^ 64

abbrev pub mul64 : ℕ → ℕ → ℕ
mul64 a b = (a * b) % 2 ^ 64

-- the memory files of a control group
pub data Name : Type 0 where
  memory_max memory_current swap_max swap_current : Name

-- the fields of `struct sysinfo` that are used
pub record Sysinfo : Type 0 where
  pub totalram : ℕ
  pub freeram : ℕ
  pub totalswap : ℕ
  pub freeswap : ℕ
  pub mem_unit : ℕ

pub record World : Type 0 where
  -- `none` if the call fails
  pub sysinfo : Option Sysinfo
  -- `none` if the file cannot be opened; an empty one stands for a failing `read` too
  pub file : Name → Option Bytes
  -- the number, as a `u_vlong`, and the text that `err` points to
  pub strtoll : Bytes → ℕ × Bytes
  pub opens : Bool
  pub chmods : Bool

-- ---- sys_read_sys_long ----

-- `*err` is the NUL or a white space
abbrev pub at_end : Bytes → Bool
at_end [] = true
at_end (c ∷ s) = is_space c

abbrev pub converted : ℕ × Bytes → Bool × ℕ
converted (n, err) = if at_end err then (true, n) else (false, 0)

-- what is returned, and what `result` holds then; `old` is what it held before
unfoldable pub read_sys_long : (Bytes → ℕ × Bytes) → Option Bytes → ℕ → Bool × ℕ
read_sys_long strtoll none old = (false, old)
read_sys_long strtoll (some []) old = (false, old)
read_sys_long strtoll (some (c ∷ file)) old =
    let buf = c_str (take 29 (c ∷ file)) in
    if begins (codes "max") buf then (true, old) else converted (strtoll buf)

-- ---- setmeminfo ----

pub record Mem : Type 0 where
  pub memmax : ℕ
  pub memcur : ℕ
  pub swapmax : ℕ
  pub swapcur : ℕ

-- phase 1
unfoldable pub host_mem : Sysinfo → Mem
host_mem i =
    let memmax = mul64 i.totalram i.mem_unit in
    let swapmax = mul64 i.totalswap i.mem_unit in
    record {
      memmax = memmax;
      memcur = sub64 memmax (mul64 i.freeram i.mem_unit);
      swapmax = swapmax;
      swapcur = sub64 swapmax (mul64 i.freeswap i.mem_unit);
    }

pub record Kb : Type 0 where
  pub mem_total : ℕ
  pub mem_free : ℕ
  pub swap_total : ℕ
  pub swap_free : ℕ

abbrev pub cap : ℕ → ℕ → ℕ
cap max cur = if ltb max cur then max else cur

-- phase 6
unfoldable pub to_kb : Mem → Kb
to_kb m = record {
  mem_total = m.memmax / 1024;
  mem_free = sub64 m.memmax (cap m.memmax m.memcur) / 1024;
  swap_total = m.swapmax / 1024;
  swap_free = sub64 m.swapmax (cap m.swapmax m.swapcur) / 1024;
}

-- what is returned, the lines written if the file was opened, and what the two static variables
-- hold
pub record Out : Type 0 where
  pub isok : Bool
  pub written : Option (List (Bytes × ℕ))
  pub swap_total_kb : ℕ
  pub swap_free_kb : ℕ

abbrev pub failed : Out
failed = record { isok = false; written = none; swap_total_kb = 0; swap_free_kb = 0 }

-- phase 8
abbrev pub lines : Kb → List (Bytes × ℕ)
lines kb =
    (codes "MemTotal:", kb.mem_total)
    ∷ (codes "MemFree:", kb.mem_free)
    ∷ (codes "MemAvailable:", kb.mem_free)
    ∷ (codes "Buffer:", 0)
    ∷ (codes "Cached:", 0)
    ∷ (codes "SwapTotal:", kb.swap_total)
    ∷ (codes "SwapFree:", kb.swap_free)
    ∷ []

abbrev pub reading : Bool × ℕ → (ℕ → Out) → Out
reading (false, n) next = failed
reading (true, n) next = next n

module _ (w : World) where
  -- prc_getcgroupmem
  unfoldable pub get_cgroup_mem : Name → ℕ → Bool × ℕ
  get_cgroup_mem name old = read_sys_long w.strtoll (w.file name) old

  -- phases 7 to 10
  unfoldable pub write_file : Kb → Out
  write_file kb = record {
    isok = w.opens && w.chmods;
    written = if w.opens then some (lines kb) else none;
    swap_total_kb = kb.swap_total;
    swap_free_kb = kb.swap_free;
  }

  -- phases 5 to 10, with the host's numbers; the other numbers are those read before
  unfoldable pub behind_swap_max : Mem → ℕ → ℕ → ℕ → Out
  behind_swap_max host memmax memcur swapmax =
      reading (get_cgroup_mem swap_current host.swapcur) (λ swapcur.
        write_file
          (to_kb record { memmax = memmax; memcur = memcur; swapmax = swapmax; swapcur = swapcur }))

  -- phases 4 to 10
  unfoldable pub behind_current : Mem → ℕ → ℕ → Out
  behind_current host memmax memcur =
      reading (get_cgroup_mem swap_max host.swapmax) (behind_swap_max host memmax memcur)

  -- phases 3 to 10
  unfoldable pub behind_max : Mem → ℕ → Out
  behind_max host memmax =
      reading (get_cgroup_mem memory_current host.memcur) (behind_current host memmax)

  -- phases 2 to 10
  unfoldable pub with_host : Mem → Out
  with_host host = reading (get_cgroup_mem memory_max host.memmax) (behind_max host)

  unfoldable pub set_meminfo : Out
  set_meminfo = elim w.sysinfo [ none ↦ failed | some i ↦ with_host (host_mem i) ]

-- ---- setswapsinfo ----

-- the size and the use that are written for the container's swap
unfoldable pub set_swapsinfo : Out → ℕ × ℕ
set_swapsinfo o = (o.swap_total_kb, sub64 o.swap_total_kb o.swap_free_kb)
