-- ===== src/Meminfo/Examples.antt =====
-- A container with a limit of 8192 bytes and no limit on its swap, and the theorems on it.
use vzgot.Base.{ℕ, ◌^◌, ◌<◌, ◌≡◌, refl, true, Option, some, if◌then◌else◌, arith}
use vzgot.Text.{Bytes, codes, c_str, is_space, same}
use vzgot.Template.Voc.{begins}
use vzgot.Meminfo.{
  World, Name, memory_max, memory_current, swap_max, swap_current, Sysinfo, Mem, host_mem,
  read_sys_long, get_cgroup_mem, set_meminfo, lines,
}
use vzgot.Meminfo.Report.{left, Answers, set_meminfo-left}

abbrev files : Name → Option Bytes
files memory_max = some (codes "8192\n")
files memory_current = some (codes "5120\n")
files swap_max = some (codes "max\n")
files swap_current = some (codes "0\n")

-- strtoll on the three numbers
abbrev number : Bytes → ℕ × Bytes
number s =
    if same s (codes "8192\n")
    then (8192, codes "\n")
    else if same s (codes "5120\n")
    then (5120, codes "\n")
    else (0, codes "\n")

abbrev host : Sysinfo
host = record { totalram = 16384; freeram = 8192; totalswap = 4096; freeswap = 1024; mem_unit = 1 }

abbrev world : World
world = record { sysinfo = some host; file = files; strtoll = number; opens = true; chmods = true }

abbrev mem : Mem
mem = record { memmax = 8192; memcur = 5120; swapmax = 4096; swapcur = 0 }

answers : Answers world (host_mem host) mem
unfolding get_cgroup_mem read_sys_long begins c_str is_space same host_mem
answers = record {
  max_read = refl;
  current_read = refl;
  swap_max_read = refl;
  swap_current_read = refl;
}

set_meminfo-left_example :
    set_meminfo world
    ≡ record { isok = true; written = some (lines (left mem)); swap_total_kb = 4; swap_free_kb = 4 }
set_meminfo-left_example = set_meminfo-left world host mem refl answers (omega arith) (omega arith)

number-Below : (s : Bytes) → (number s).0 < 2 ^ 64
number-Below s = ground arith
