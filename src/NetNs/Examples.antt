-- ===== src/NetNs/Examples.antt =====
-- A world in which the way back fails, and the theorem in it.
use vzgot.Base.{true, false, some}
use vzgot.Text.{codes}
use vzgot.NetNs.{host, Process, World}

abbrev one_way : World
one_way = record {
  opens_host = true;
  opens_cont = true;
  enters = true;
  returns = false;
  ip_num = λ s. some (codes "10.0.0.2");
}

abbrev at_home : Process
at_home = record { space = host; host_open = false; cont_open = false }
