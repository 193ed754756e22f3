-- ===== src/Cpu.antt =====
-- The number of processors of a container: prc_getnbrcpu of lib/subprc.c and sys_get_numcpu of
-- lib/utlsys.c, from the line that they read. `conf` is what sysconf says, and `scan` is sscanf
-- with "%d-%d", whose result is given where it is 2.
pub mod Count
mod Examples
use vzgot.Base.{
  ℕ, ◌+◌, ◌-◌, ◌%◌, Bool, true, false, ◌||◌, Option, none, some, List, [], ◌∷◌, ◌++◌, leb, ◌==◌,
  ◌&&◌, if◌then◌else◌,
}
use vzgot.Text.{Bytes, clean_string}

abbrev pub is_digit : ℕ → Bool
is_digit c = leb b'0' c && leb c b'9'

-- `strspn(check,"0123456789-")>0`
abbrev pub spans : Bytes → Bool
spans [] = false
spans (c ∷ s) = is_digit c || c == b'-'

-- `strchr(check,'-')!=NULL`
unfoldable pub has_dash : Bytes → Bool
has_dash [] = false
has_dash (c ∷ s) = c == b'-' || has_dash s

-- `nbr+=end-start` on 16 bits
abbrev pub widen : ℕ → ℕ × ℕ → ℕ
widen nbr (start, end) = (nbr + end % 65536 + (65536 - start % 65536)) % 65536

module _ (scan : Bytes → Option (ℕ × ℕ)) where
  -- what one piece between commas adds
  unfoldable pub add_piece : Bytes → ℕ → ℕ
  unfolding has_dash
  add_piece check nbr =
      let wide =
        if has_dash check
        then (elim (scan check) [ none ↦ nbr | some range ↦ widen nbr range ])
        else nbr in
      if spans check then (wide + 1) % 65536 else nbr

  -- the loop, with the bytes of the piece read so far
  unfoldable pub count_from : Bytes → Bytes → ℕ → ℕ
  unfolding add_piece
  count_from check [] nbr = add_piece check nbr
  count_from check (c ∷ s) nbr =
      let next = count_from [] s (add_piece check nbr) in
      let more = count_from (check ++ c ∷ []) s nbr in if c == b',' then next else more

  -- phases 2 and 3 of sys_get_numcpu; `none` is a line that could not be read
  unfoldable pub get_numcpu : ℕ → Option Bytes → ℕ
  unfolding count_from
  get_numcpu conf none = conf
  get_numcpu conf (some []) = conf
  get_numcpu conf (some (c ∷ line)) =
      let nbr = count_from [] (c ∷ line) 0 in if nbr == 0 then conf else nbr

  -- prc_getnbrcpu
  unfoldable pub getnbrcpu : ℕ → Option Bytes → ℕ
  unfolding get_numcpu
  getnbrcpu conf none = conf
  getnbrcpu conf (some line) = get_numcpu conf (some (clean_string line))
