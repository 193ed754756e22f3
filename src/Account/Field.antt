-- ===== src/Account/Field.antt =====
-- The number found in a file of the control group.
use vzgot.Base.{
  ℕ, zero, suc, ◌<◌, ◌≡◌, ◌≢◌, refl, ap, ◌∙◌, true, false, some, List, [], ◌∷◌, ◌++◌, length, All,
  All-append, arith,
}
use vzgot.Text.{Bytes, codes, c_str}
use vzgot.Template.Voc.{begins}
use vzgot.Pid.File.{line_of-line}
use vzgot.Pid.Monitor.{lines_before, lines_before-length}
use vzgot.Account.{or_later, find_field, behind_blank, usage_at, usage_in, cnt_usage}

abbrev pub usage_key : Bytes
usage_key = codes "usage_usec"

-- a line that fits the buffer and has another key
abbrev pub IsOther : Bytes → Type 0
IsOther l =
    All (λ c. c ≢ b'\n') l × (length l < 99) × (begins usage_key (c_str (l ++ b'\n' ∷ [])) ≡ false)

abbrev whole : Bytes → Bytes
whole s = s

find_field_step :
    (fuel : ℕ) (l rest : Bytes)
    → All (λ c. c ≢ b'\n') l
    → length l < 99
    → find_field whole usage_key (suc fuel) (l ++ b'\n' ∷ rest)
      ≡ or_later
          (begins usage_key (c_str (l ++ b'\n' ∷ [])))
          (c_str (l ++ b'\n' ∷ []))
          (find_field whole usage_key fuel rest)
unfolding find_field
find_field_step fuel [] rest h lt =
    ap
      (λ r.
        or_later (begins usage_key (c_str r.0)) (c_str r.0) (find_field whole usage_key fuel r.1))
      (line_of-line 99 [] rest h lt)
find_field_step fuel (c ∷ l) rest h lt =
    ap
      (λ r.
        or_later (begins usage_key (c_str r.0)) (c_str r.0) (find_field whole usage_key fuel r.1))
      (line_of-line 99 (c ∷ l) rest h lt)

-- the kernel's line: the key, a blank and the digits
abbrev pub usage_line : Bytes → Bytes
usage_line digits = usage_key ++ b' ' ∷ digits

pub c_str_self : (s : Bytes) → All (λ c. c ≢ 0) s → c_str s ≡ s
unfolding c_str
c_str_self [] h = refl
c_str_self (c ∷ s) h = ground (arith, c_str_self s h.1)

usage_line-begins : (s : Bytes) → begins usage_key (usage_key ++ s) ≡ true
unfolding begins
usage_line-begins s = refl

-- digits: neither a line feed nor a NUL
abbrev pub IsDigits : Bytes → Type 0
IsDigits s = All (λ c. (c ≢ b'\n') × (c ≢ 0)) s × (length s < 88)

plain_line : (s : Bytes) → All (λ c. (c ≢ b'\n') × (c ≢ 0)) s → All (λ c. c ≢ b'\n') s
plain_line [] h = tt
plain_line (c ∷ s) h = (h.0.0, plain_line s h.1)

plain_text : (s : Bytes) → All (λ c. (c ≢ b'\n') × (c ≢ 0)) s → All (λ c. c ≢ 0) s
plain_text [] h = tt
plain_text (c ∷ s) h = (h.0.1, plain_text s h.1)

key_plain : All (λ c. (c ≢ b'\n') × (c ≢ 0)) (usage_line [])
key_plain = ground arith

line_plain :
    (digits : Bytes) → IsDigits digits → All (λ c. (c ≢ b'\n') × (c ≢ 0)) (usage_line digits)
line_plain digits h = All-append (λ c. (c ≢ b'\n') × (c ≢ 0)) (usage_line []) digits key_plain h.0

found_line :
    (digits : Bytes)
    → IsDigits digits
    → c_str (usage_line digits ++ b'\n' ∷ []) ≡ usage_line digits ++ b'\n' ∷ []
found_line digits h = c_str_self (usage_line digits ++ b'\n' ∷ []) (
    All-append (λ c. c ≢ 0) (usage_line digits) (b'\n' ∷ [])
      (plain_text (usage_line digits) (line_plain digits h)) (omega arith, tt))

find_field-usage :
    (ls : List Bytes) (fuel : ℕ) (digits rest : Bytes)
    → All IsOther ls
    → IsDigits digits
    → length ls < fuel
    → find_field whole usage_key fuel (lines_before ls (usage_line digits ++ b'\n' ∷ rest))
      ≡ some (usage_line digits ++ b'\n' ∷ [])
find_field-usage ls zero digits rest h k lt = absurd (omega arith)
find_field-usage [] (suc fuel) digits rest h k lt =
    find_field_step fuel (usage_line digits) rest
      (plain_line (usage_line digits) (line_plain digits k)) (omega arith)
    ∙ ap (λ s. or_later (begins usage_key s) s (find_field whole usage_key fuel rest))
        (found_line digits k)
    ∙ ap (λ b. or_later b (usage_line digits ++ b'\n' ∷ []) (find_field whole usage_key fuel rest))
        (usage_line-begins (b' ' ∷ digits ++ b'\n' ∷ []))
find_field-usage (l ∷ ls) (suc fuel) digits rest h k lt =
    let (plain, fits, other) = h.0 in
    let tail = lines_before ls (usage_line digits ++ b'\n' ∷ rest) in
    find_field_step fuel l tail plain fits
    ∙ ap (λ b. or_later b (c_str (l ++ b'\n' ∷ [])) (find_field whole usage_key fuel tail)) other
    ∙ find_field-usage ls fuel digits rest h.1 k (omega arith)

behind_blank-usage :
    (digits : Bytes) → behind_blank (usage_line digits ++ b'\n' ∷ []) ≡ some (digits ++ b'\n' ∷ [])
unfolding behind_blank
behind_blank-usage digits = refl

-- When cpu.stat has a line `usage_usec` with a number behind it, and the lines before it are others
-- that fit the buffer, prc_cnt_usage returns true with what strtoull makes of this number.
pub cnt_usage-first :
    (strtoull : Bytes → ℕ) (usage : ℕ) (ls : List Bytes) (digits rest : Bytes)
    → All IsOther ls
    → IsDigits digits
    → cnt_usage strtoull (some (lines_before ls (usage_line digits ++ b'\n' ∷ rest))) usage
      ≡ (true, strtoull (digits ++ b'\n' ∷ []))
unfolding cnt_usage
cnt_usage-first strtoull usage ls digits rest h k =
    let file = lines_before ls (usage_line digits ++ b'\n' ∷ rest) in
    ap (usage_in strtoull usage) (
      find_field-usage ls (length file) digits rest h k
        (omega (arith, lines_before-length ls (usage_line digits ++ b'\n' ∷ rest))))
    ∙ ap (usage_at strtoull usage) (behind_blank-usage digits)
