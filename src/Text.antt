-- ===== src/Text.antt =====
-- Text helpers of lib/utlapl.c: apl_cleanstring, apl_getstr and apl_getvoca. A C string is the
-- list of its bytes before the NUL; a FILE is the list of the bytes still to be read.
pub mod Clean
pub mod Escape
pub mod Eol
pub mod Voca
pub mod Scan
mod Examples
use vzgot.Base.{
  ℕ, zero, suc, ◌+◌, ◌-◌, Bool, true, false, not, ◌&&◌, ◌||◌, Option, none, some, List, [], ◌∷◌,
  ◌++◌, ltb, leb, ◌==◌, if◌then◌else◌, length, get_elem?, take, drop,
}
use mathlib.Core.List.{reverse}
use Prim.Native.Char.{code}
use Prim.Native.String.{String}

abbrev pub Bytes : Type 0
Bytes = List ℕ

-- the bytes of a literal
abbrev pub codes : String → Bytes
codes String.[] = []
codes (String.◌∷◌ c s) = code c ∷ codes s

-- `strcmp(a,b)==0`
unfoldable pub same : Bytes → Bytes → Bool
same [] [] = true
same [] (d ∷ t) = false
same (c ∷ s) [] = false
same (c ∷ s) (d ∷ t) = c == d && same s t

-- ---- apl_cleanstring ----

-- the bytes that the loop from the end removes
abbrev pub is_tail : ℕ → Bool
is_tail c = c == b'\n' || c == b'\r' || c == b' '

-- isblank
abbrev pub is_blank : ℕ → Bool
is_blank c = c == b' ' || c == b'\t'

abbrev pub tail_at : Bytes → ℕ → Bool
tail_at s i = elim (get_elem? s i) [ none ↦ false | some c ↦ is_tail c ]

-- `while (taille>0)`: a NUL written at `taille - 1` ends the string there
unfoldable pub cut_tail : ℕ → Bytes → Bytes
cut_tail zero s = s
cut_tail (suc n) s = let rest = cut_tail n (take n s) in if tail_at s n then rest else s

-- `while (isblank(*ptr)!=0) ptr++`
unfoldable pub skip_blanks : Bytes → Bytes
skip_blanks [] = []
skip_blanks (c ∷ s) = if is_blank c then skip_blanks s else c ∷ s

unfoldable pub clean_string : Bytes → Bytes
clean_string s = skip_blanks (cut_tail (length s) s)

-- ---- apl_getstr ----

-- what `fgets` puts into a buffer of `n + 1` bytes, and what it leaves in the file
unfoldable pub line_of : ℕ → Bytes → Bytes × Bytes
line_of zero file = ([], file)
line_of (suc n) [] = ([], [])
line_of (suc n) (c ∷ file) =
    let (line, rest) = line_of n file in if c == b'\n' then (c ∷ [], file) else (c ∷ line, rest)

-- the string that a buffer holds: its bytes before the first NUL
unfoldable pub c_str : Bytes → Bytes
c_str [] = []
c_str (c ∷ s) = if c == 0 then [] else c ∷ c_str s

-- one step back over an escaping `\`; `out` is the string before `ptrloc`, last byte first
unfoldable pub unescape? : Bytes → Option Bytes
unescape? [] = none
unescape? (c ∷ out) = if c == b'\\' then some out else none

-- the `strchr` loop, at `ptrloc`; `skip` holds for the byte that `ptrloc++` passes over
unfoldable pub cut_comment : ℕ → Bool → Bytes → Bytes → Bytes
cut_comment carcom skip out [] = reverse out
cut_comment carcom skip out (c ∷ s) = elim (not skip && c == carcom) [
  | false ↦ cut_comment carcom false (c ∷ out) s
  | true ↦ elim (unescape? out) [
    | none ↦ reverse out
    | some out' ↦ cut_comment carcom true (carcom ∷ out') s
  ]
]

abbrev pub eol_at : Bytes → ℕ → Bool
eol_at s i = elim (get_elem? s i) [ none ↦ false | some c ↦ c == b'\n' || c == b'\r' ]

-- `while (len>0)` with `ptrloc` at position `p`; the loop starts on the NUL itself
unfoldable pub cut_eol : ℕ → ℕ → Bytes → Bytes
cut_eol zero p s = s
cut_eol (suc len) p s = let rest = cut_eol len (p - 1) (take p s) in if eol_at s p then rest else s

unfoldable pub starts_with : ℕ → Bytes → Bool
starts_with c [] = false
starts_with c (x ∷ s) = x == c

-- what the body of the loop does to the line read
unfoldable pub edit_line : ℕ → Bytes → Bytes
edit_line carcom str =
    if not (carcom == 0) && starts_with carcom str
    then []
    else let cut = if carcom == 0 then str else cut_comment carcom false [] str in
      cut_eol (length cut) (length cut) cut

-- the line and the rest of the file; `none` at the end of the file
unfoldable pub getstr : ℕ → ℕ → Bytes → Option (Bytes × Bytes)
getstr taille carcom [] = none
getstr taille carcom (c ∷ file) =
    let (line, rest) = line_of (taille - 1) (c ∷ file) in some (edit_line carcom (c_str line), rest)

-- ---- apl_getvoca ----

-- isspace, isalnum and tolower of the C locale
abbrev pub within : ℕ → ℕ → ℕ → Bool
within lo hi c = leb lo c && leb c hi

unfoldable pub is_space : ℕ → Bool
is_space c = c == b' ' || within 9 13 c

unfoldable pub is_alnum : ℕ → Bool
is_alnum c = within b'0' b'9' c || within b'A' b'Z' c || within b'a' b'z' c

unfoldable pub to_lower : ℕ → ℕ
to_lower c = if within b'A' b'Z' c then c + 32 else c

unfoldable pub skip_spaces : Bytes → Bytes
skip_spaces [] = []
skip_spaces (c ∷ s) = if is_space c then skip_spaces s else c ∷ s

-- `strncasecmp(key,s,strlen(key))==0`, with what of `s` lies behind the key
unfoldable pub after_key : Bytes → Bytes → Option Bytes
after_key [] s = some s
after_key (k ∷ key) [] = none
after_key (k ∷ key) (c ∷ s) = if to_lower k == to_lower c then after_key key s else none

pub record Voc : Type 0 where
  pub code : ℕ
  pub key : Bytes

unfoldable pub starts_alnum : Bytes → Bool
starts_alnum [] = false
starts_alnum (c ∷ s) = is_alnum c

-- the `for` loop; the sentinel's code is `unknown`, and then `str` stays as it is
unfoldable pub scan_voca : ℕ → List Voc → Bytes → Bytes → ℕ × Bytes
scan_voca unknown [] str sptr = (unknown, str)
scan_voca unknown (v ∷ table) str sptr =
    let next = scan_voca unknown table str sptr in
    elim (after_key v.key sptr) [
      | none ↦ next
      | some rest ↦ if starts_alnum rest then next else (v.code, skip_spaces rest)
    ]

unfoldable pub getvoca : ℕ → List Voc → Bytes → ℕ × Bytes
getvoca unknown table str = scan_voca unknown table str (skip_spaces str)
