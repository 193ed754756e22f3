-- ===== src/Memfd/Examples.antt =====
-- A copy that cannot be made, and the theorem on it.
use vzgot.Base.{refl, true, false, []}
use vzgot.Memfd.{
  open_src, fstat, memfd_create, sendfile, lseek, close_src, close_mem, World, get_memfd,
}
use vzgot.Memfd.Closed.{src_open, mem_open, IsClosed, get_memfd-IsClosed}

abbrev no_transfer : World
no_transfer = record {
  answer = λ t op. elim op [
    | open_src ↦ true
    | fstat ↦ true
    | memfd_create ↦ true
    | sendfile ↦ false
    | lseek ↦ true
    | close_src ↦ true
    | close_mem ↦ true
  ];
}

get_memfd-IsClosed_example : IsClosed no_transfer (get_memfd no_transfer [])
get_memfd-IsClosed_example =
    get_memfd-IsClosed no_transfer [] (unfold src_open in refl) (unfold mem_open in refl)
