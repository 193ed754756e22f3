-- ===== src/Template/Buffer.antt =====
-- The buffer in which cfg_update_online of lib/unicfg.c works on a line, and what do_resolv does
-- to it. A buffer is the list of all its bytes, those behind the NUL included, and `none` is an
-- access outside of a buffer.
use vzgot.Base.{
  ℕ, zero, suc, ◌+◌, Option, none, some, [], ◌∷◌, ◌++◌, ltb, ◌==◌, if◌then◌else◌, length, set, take,
  drop, min,
}
use mathlib.Core.Option
use vzgot.Text.{Bytes}

unfoldable pub str_len : Bytes → Option ℕ
str_len [] = none
str_len (c ∷ s) = if c == 0 then some 0 else Option.map suc (str_len s)

abbrev pub moved : ℕ → ℕ → Bytes → Option ℕ → Option Bytes
moved num key buf none = none
moved num key buf (some n) =
    some (take num buf ++ (take (n + 1) (drop key buf) ++ drop (num + (n + 1)) buf))

-- `memmove(marker+num,marker+using,strlen(marker+using)+1)`
unfoldable pub move_tail : ℕ → ℕ → Bytes → Option Bytes
unfolding str_len
move_tail num key buf = moved num key buf (str_len (drop key buf))

-- the copy of `num` bytes of `replace`, and the NUL behind them if they reach the end
unfoldable pub copy_value : ℕ → Bytes → ℕ → Bytes → Option Bytes
copy_value num replace max buf =
    if ltb (length replace) num
    then none
    else let copied = take num replace ++ drop num buf in
      if ltb num max
      then some copied
      else if ltb num (length buf)
      then some (set copied num 0)
      else none

unfoldable pub copy_at : ℕ → Bytes → Bytes → Option ℕ → Option Bytes
unfolding copy_value
copy_at num replace buf none = none
copy_at num replace buf (some max) = copy_value (min num (length buf)) replace max buf

unfoldable pub paste : ℕ → Bytes → Bytes → Option Bytes
unfolding copy_at
paste num replace buf = copy_at num replace buf (str_len buf)

abbrev pub then_paste : ℕ → Bytes → Option Bytes → Option Bytes
then_paste num replace none = none
then_paste num replace (some buf) = paste num replace buf

-- what is done to the buffer, `marker` on, with the result of `snprintf`; `remain` is its length
unfoldable pub edit : ℕ → ℕ → Bytes → Bytes → Option Bytes
edit key num replace buf =
    if num == 0
    then some buf
    else then_paste num replace (if ltb num key then move_tail num key buf else some buf)

-- `memset(marker,c,n)`
unfoldable pub mem_set : ℕ → ℕ → Bytes → Option Bytes
mem_set c zero buf = some buf
mem_set c (suc n) [] = none
mem_set c (suc n) (x ∷ buf) = Option.map (λ r. c ∷ r) (mem_set c n buf)

-- `strcspn(scan,"$")`: the bytes before, and the buffer from the `$` on unless the string ends
unfoldable pub to_dollar : Bytes → Option (Bytes × Option Bytes)
to_dollar [] = none
to_dollar (c ∷ buf) =
    if c == 0
    then some ([], none)
    else if c == b'$'
    then some ([], some (c ∷ buf))
    else Option.map (λ (before, rest). (c ∷ before, rest)) (to_dollar buf)

-- the buffer of 400 bytes, with the line in it; `stale` is what it held
unfoldable pub work_of : Bytes → Bytes → Bytes
work_of stale line = let shown = take 399 line in shown ++ 0 ∷ drop (length shown + 1) stale
