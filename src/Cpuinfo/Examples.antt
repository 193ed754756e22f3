-- ===== src/Cpuinfo/Examples.antt =====
-- A host of three processors, of which the container has two, and the theorem on it.
use vzgot.Base.{◌≡◌, refl, true, false, List, [], ◌∷◌}
use vzgot.Text.{codes, line_of, c_str, clean_string, skip_blanks, cut_tail, starts_with}
use vzgot.Template.Voc.{begins}
use vzgot.Pid.{print_number, to_digits}
use vzgot.Cpuinfo.{
  discard, markers, find_action, split_colon, show_line, on_line, on_clean, duplicate, skip_cpu,
  copy_cpus,
}
use vzgot.Cpuinfo.Block.{Entry}
use vzgot.Cpuinfo.Blocks.{Cpu, flags, host_file}

abbrev number : Entry
number = record { key = codes "processor\t"; value = codes " 0" }

abbrev flag_list : Entry
flag_list = record { key = codes "flags\t\t"; value = codes " fpu vme" }

abbrev cpus : List Cpu
cpus = (true, number ∷ flag_list ∷ []) ∷ (false, number ∷ flag_list ∷ []) ∷ (true, number ∷ []) ∷ []

copied_test :
    copy_cpus 2 0 (flags cpus) (host_file cpus)
    ≡ codes "processor\t: 0\nflags\t\t: fpu vme\n\nprocessor\t: 1\n\n"
unfolding find_action split_colon show_line on_line on_clean duplicate skip_cpu copy_cpus line_of
    c_str clean_string skip_blanks cut_tail starts_with begins print_number to_digits
copied_test = refl

-- the `addresses sizes` of the table is not what the kernel writes
address_test : find_action markers (codes "address sizes\t: 46 bits physical") ≡ discard
unfolding find_action begins
address_test = refl
