-- ===== src/Template/Voc.antt =====
-- The known variables of lib/unicfg.c and their lookup by name.
use vzgot.Base.{ℕ, Bool, true, false, ◌&&◌, Option, none, some, List, [], ◌∷◌, ◌==◌, if◌then◌else◌}
use vzgot.Text.{Bytes, codes}

pub data Code : Type 0 where
  ceiling chwratio coomkill cint cip cmem cmpress cname ctrxtx csrxtx cswap cpuidle cpuused : Code
  cpuwait hmem hmpress hint hip hmodel hname hoomkill hsrxtx htrxtx hswap lavg lstass model : Code
  maxcpu memmax numcpu onl pid pidmax pwrcpu swapmax throttle uptime users : Code

-- a known variable
pub record Known : Type 0 where
  pub varname : Bytes
  pub code : Code

abbrev known : Bytes → Code → Known
known name c = record { varname = name; code = c }

abbrev pub voc : List Known
voc =
    known (codes "CEILING") ceiling
    ∷ known (codes "COOMKILL") coomkill
    ∷ known (codes "CHWRATIO") chwratio
    ∷ known (codes "CINT") cint
    ∷ known (codes "CIP") cip
    ∷ known (codes "CMEM") cmem
    ∷ known (codes "CMPRESS") cmpress
    ∷ known (codes "CNAME") cname
    ∷ known (codes "CPUIDLE") cpuidle
    ∷ known (codes "CPUUSED") cpuused
    ∷ known (codes "CPUWAIT") cpuwait
    ∷ known (codes "CTRXTX") ctrxtx
    ∷ known (codes "CSRXTX") csrxtx
    ∷ known (codes "CSWAP") cswap
    ∷ known (codes "HINT") hint
    ∷ known (codes "HIP") hip
    ∷ known (codes "HMEM") hmem
    ∷ known (codes "HNAME") hname
    ∷ known (codes "HMODEL") hmodel
    ∷ known (codes "HMPRESS") hmpress
    ∷ known (codes "HOOMKILL") hoomkill
    ∷ known (codes "HSRXTX") hsrxtx
    ∷ known (codes "HSWAP") hswap
    ∷ known (codes "HTRXTX") htrxtx
    ∷ known (codes "LOADAVG") lavg
    ∷ known (codes "LSTASS") lstass
    ∷ known (codes "MEMMAX") memmax
    ∷ known (codes "MAXCPU") maxcpu
    ∷ known (codes "NUMCPU") numcpu
    ∷ known (codes "ONL") onl
    ∷ known (codes "PID") pid
    ∷ known (codes "PIDMAX") pidmax
    ∷ known (codes "PWRCPU") pwrcpu
    ∷ known (codes "SWAPMAX") swapmax
    ∷ known (codes "THROTTLE") throttle
    ∷ known (codes "USERS") users
    ∷ known (codes "UPTIME") uptime
    ∷ []

-- the enumerator's value
unfoldable pub number : Code → ℕ
number ceiling = 0
number chwratio = 1
number coomkill = 2
number cint = 3
number cip = 4
number cmem = 5
number cmpress = 6
number cname = 7
number ctrxtx = 8
number csrxtx = 9
number cswap = 10
number cpuidle = 11
number cpuused = 12
number cpuwait = 13
number hmem = 14
number hmpress = 15
number hint = 16
number hip = 17
number hmodel = 18
number hname = 19
number hoomkill = 20
number hsrxtx = 21
number htrxtx = 22
number hswap = 23
number lavg = 24
number lstass = 25
number model = 26
number maxcpu = 27
number memmax = 28
number numcpu = 29
number onl = 30
number pid = 31
number pidmax = 32
number pwrcpu = 33
number swapmax = 34
number throttle = 35
number uptime = 36
number users = 37

-- `strncmp(name,full,strlen(name))==0`
unfoldable pub begins : Bytes → Bytes → Bool
begins [] full = true
begins (c ∷ name) [] = false
begins (c ∷ name) (d ∷ full) = c == d && begins name full

unfoldable pub find_known : List Known → Bytes → Option Known
find_known [] name = none
find_known (v ∷ table) name = if begins name v.varname then some v else find_known table name

unfoldable pub lookup : Bytes → Option Known
unfolding find_known begins
lookup name = find_known voc name
