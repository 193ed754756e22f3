-- ===== src/Meminfo/Report.antt =====
-- The numbers that a container sees of its memory.
use vzgot.Base.{
  ℕ, ◌-◌, ◌/◌, ◌^◌, ◌<◌, ◌≤◌, ◌≡◌, refl, ap, ◌∙◌, Bool, true, false, ◌&&◌, Option, none, some, [],
  ◌∷◌, take, if◌then◌else◌, Bool-cases, inl, inr, arith,
}
use vzgot.Text.{Bytes, codes, c_str}
use vzgot.Template.Voc.{begins}
use vzgot.Meminfo.{
  sub64, at_end, converted, read_sys_long, Sysinfo, Name, memory_max, memory_current, swap_max,
  swap_current, World, Mem, host_mem, Kb, cap, to_kb, Out, failed, lines, reading, get_cgroup_mem,
  write_file, with_host, behind_max, behind_current, behind_swap_max, set_meminfo, set_swapsinfo,
}

sub64-cap : (max cur : ℕ) → max < 2 ^ 64 → sub64 max (cap max cur) ≡ max - cur
sub64-cap max cur h = ground arith

-- what the container is to be told: what is left of each limit, and nothing when it is overrun
abbrev pub left : Mem → Kb
left m = record {
  mem_total = m.memmax / 1024;
  mem_free = (m.memmax - m.memcur) / 1024;
  swap_total = m.swapmax / 1024;
  swap_free = (m.swapmax - m.swapcur) / 1024;
}

to_kb-left : (m : Mem) → m.memmax < 2 ^ 64 → m.swapmax < 2 ^ 64 → to_kb m ≡ left m
unfolding to_kb
to_kb-left m hm hs =
    ap
      (λ f. record {
        mem_total = m.memmax / 1024;
        mem_free = f / 1024;
        swap_total = m.swapmax / 1024;
        swap_free = sub64 m.swapmax (cap m.swapmax m.swapcur) / 1024;
      })
      (sub64-cap m.memmax m.memcur hm)
    ∙ ap
        (λ f. record {
          mem_total = m.memmax / 1024;
          mem_free = (m.memmax - m.memcur) / 1024;
          swap_total = m.swapmax / 1024;
          swap_free = f / 1024;
        })
        (sub64-cap m.swapmax m.swapcur hs)

-- what the four files say: `m`, when the host has `host`
pub record Answers (w : World) (host m : Mem) : Type 0 where
  pub max_read : get_cgroup_mem w memory_max host.memmax ≡ (true, m.memmax)
  pub current_read : get_cgroup_mem w memory_current host.memcur ≡ (true, m.memcur)
  pub swap_max_read : get_cgroup_mem w swap_max host.swapmax ≡ (true, m.swapmax)
  pub swap_current_read : get_cgroup_mem w swap_current host.swapcur ≡ (true, m.swapcur)

with_host-Answers :
    (w : World) (host m : Mem) → Answers w host m → with_host w host ≡ write_file w (to_kb m)
unfolding with_host behind_max behind_current behind_swap_max
with_host-Answers w host m a =
    rw (a.max_read, a.current_read, a.swap_max_read, a.swap_current_read) refl

-- When the host's sizes are known and the four files of the control group can be read, and the two
-- limits are below 2 ^ 64, setmeminfo writes the limits and what is left of them, in kilobytes, and
-- leaves the same for the swap; when more than the limit is used, nothing is left. It returns true
-- if the file could be opened and its mode be changed, and writes nothing if it could not be
-- opened.
pub set_meminfo-left :
    (w : World) (i : Sysinfo) (m : Mem)
    → w.sysinfo ≡ some i
    → Answers w (host_mem i) m
    → m.memmax < 2 ^ 64
    → m.swapmax < 2 ^ 64
    → set_meminfo w ≡ record {
      isok = w.opens && w.chmods;
      written = if w.opens then some (lines (left m)) else none;
      swap_total_kb = m.swapmax / 1024;
      swap_free_kb = (m.swapmax - m.swapcur) / 1024;
    }
unfolding set_meminfo write_file
set_meminfo-left w i m e a hm hs =
    ap (λ o. elim o [ none ↦ failed | some i ↦ with_host w (host_mem i) ]) e
    ∙ with_host-Answers w (host_mem i) m a
    ∙ ap (write_file w) (to_kb-left m hm hs)

-- ---- setswapsinfo ----

-- the swap that is left is no more than there is
abbrev pub IsSound : Out → Type 0
IsSound o = (o.swap_free_kb ≤ o.swap_total_kb) × (o.swap_total_kb < 2 ^ 64)

converted-Below : (r : ℕ × Bytes) → r.0 < 2 ^ 64 → (converted r).1 < 2 ^ 64
converted-Below (n, err) h = elim (Bool-cases (at_end err)) [
  | inl e ↦ rw e h
  | inr e ↦ rw e (omega arith)
]

read_sys_long-Below :
    (strtoll : Bytes → ℕ × Bytes) (file : Option Bytes) (old : ℕ)
    → ((s : Bytes) → (strtoll s).0 < 2 ^ 64)
    → old < 2 ^ 64
    → (read_sys_long strtoll file old).1 < 2 ^ 64
unfolding read_sys_long
read_sys_long-Below strtoll none old hs h = h
read_sys_long-Below strtoll (some []) old hs h = h
read_sys_long-Below strtoll (some (c ∷ file)) old hs h =
    let buf = c_str (take 29 (c ∷ file)) in
    elim (Bool-cases (begins (codes "max") buf)) [
      | inl e ↦ rw e h
      | inr e ↦ rw e (converted-Below (strtoll buf) (hs buf))
    ]

reading-IsSound :
    (r : Bool × ℕ) (next : ℕ → Out)
    → r.1 < 2 ^ 64
    → ((n : ℕ) → n < 2 ^ 64 → IsSound (next n))
    → IsSound (reading r next)
reading-IsSound (false, n) next h later = (omega arith, omega arith)
reading-IsSound (true, n) next h later = later n h

write_file-IsSound :
    (w : World) (m : Mem)
    → m.memmax < 2 ^ 64
    → m.swapmax < 2 ^ 64
    → IsSound (write_file w (to_kb m))
unfolding write_file
write_file-IsSound w m hm hs = rw (to_kb-left m hm hs) (omega arith, omega arith)

module _ (w : World) (small : (s : Bytes) → (w.strtoll s).0 < 2 ^ 64) where
  get_cgroup_mem-Below :
      (name : Name) (old : ℕ) → old < 2 ^ 64 → (get_cgroup_mem w name old).1 < 2 ^ 64
  unfolding get_cgroup_mem
  get_cgroup_mem-Below name old h = read_sys_long-Below w.strtoll (w.file name) old small h

  behind_swap_max-IsSound :
      (host : Mem) (memmax memcur swapmax : ℕ)
      → memmax < 2 ^ 64
      → swapmax < 2 ^ 64
      → host.swapcur < 2 ^ 64
      → IsSound (behind_swap_max w host memmax memcur swapmax)
  unfolding behind_swap_max
  behind_swap_max-IsSound host memmax memcur swapmax hm hs hu =
      reading-IsSound (get_cgroup_mem w swap_current host.swapcur)
        (λ swapcur.
          write_file w (
            to_kb
              record { memmax = memmax; memcur = memcur; swapmax = swapmax; swapcur = swapcur }))
        (get_cgroup_mem-Below swap_current host.swapcur hu)
        (λ swapcur d.
          write_file-IsSound w
            record { memmax = memmax; memcur = memcur; swapmax = swapmax; swapcur = swapcur } hm hs)

  with_host-IsSound :
      (host : Mem)
      → host.memmax < 2 ^ 64
      → host.memcur < 2 ^ 64
      → host.swapmax < 2 ^ 64
      → host.swapcur < 2 ^ 64
      → IsSound (with_host w host)
  unfolding with_host behind_max behind_current
  with_host-IsSound host hm hc hs hu =
      reading-IsSound (get_cgroup_mem w memory_max host.memmax) (behind_max w host)
        (get_cgroup_mem-Below memory_max host.memmax hm)
        (λ memmax a.
          reading-IsSound (get_cgroup_mem w memory_current host.memcur)
            (behind_current w host memmax) (get_cgroup_mem-Below memory_current host.memcur hc)
            (λ memcur b.
              reading-IsSound (get_cgroup_mem w swap_max host.swapmax)
                (behind_swap_max w host memmax memcur)
                (get_cgroup_mem-Below swap_max host.swapmax hs)
                (λ swapmax c. behind_swap_max-IsSound host memmax memcur swapmax a c hu)))

  set_meminfo-IsSound : IsSound (set_meminfo w)
  unfolding set_meminfo
  set_meminfo-IsSound =
      elim w.sysinfo
        as (λ x. IsSound (elim x [ none ↦ failed | some i ↦ with_host w (host_mem i) ])) [
          | none ↦ (omega arith, omega arith)
          | some i ↦
              unfold host_mem in
              with_host-IsSound (host_mem i) (omega arith) (omega arith) (omega arith) (omega arith)
        ]

  -- If strtoll's numbers are below 2 ^ 64, whatever else fails, what setswapsinfo writes behind
  -- setmeminfo is the swap's size and the size less what is left, which is not more than the size:
  -- the subtraction does not wrap.
  pub set_swapsinfo-used :
      (set_swapsinfo (set_meminfo w) ≡ (
        (set_meminfo w).swap_total_kb,
        (set_meminfo w).swap_total_kb - (set_meminfo w).swap_free_kb,
      ))
      × ((set_meminfo w).swap_free_kb ≤ (set_meminfo w).swap_total_kb)
  unfolding set_swapsinfo
  set_swapsinfo-used =
      let (le, lt) = set_meminfo-IsSound in
      (ap (λ n. ((set_meminfo w).swap_total_kb, n)) (omega arith), le)
