-- ===== src/Template/Edit.antt =====
-- What the editing of the buffer does to the string in it.
use vzgot.Base.{
  ℕ, zero, suc, ◌+◌, ◌-◌, ◌≤◌, ◌<◌, ◌≡◌, ◌≢◌, refl, sym, ap, subst, ◌∙◌, true, Option, some, List,
  [], ◌∷◌, ◌++◌, append-nil, append_assoc, arith, ltb, length, set, take, drop, length-append, All,
  All-append, Bool-cases, inl, inr,
}
use vzgot.Text.{Bytes, c_str}
use vzgot.Template.Buffer.{str_len, moved, move_tail, copy_at, copy_value, paste, then_paste, edit}

-- a string without its NUL
abbrev pub IsString : Bytes → Type 0
IsString = All (λ c. c ≢ 0)

module _ {A : Type 0} where
  take-append : (s t : List A) → take (length s) (s ++ t) ≡ s
  take-append [] t = refl
  take-append (x ∷ s) t = ap (λ r. x ∷ r) (take-append s t)

  drop_inside : (n : ℕ) (s t : List A) → n ≤ length s → drop n (s ++ t) ≡ drop n s ++ t
  drop_inside zero s t h = refl
  drop_inside (suc n) [] t h = absurd (omega arith)
  drop_inside (suc n) (x ∷ s) t h = drop_inside n s t (omega arith)

  drop_past : (n : ℕ) (s t : List A) → length s ≤ n → drop n (s ++ t) ≡ drop (n - length s) t
  drop_past n [] t h = ap (λ k. drop k t) (omega arith)
  drop_past zero (x ∷ s) t h = absurd (omega arith)
  drop_past (suc n) (x ∷ s) t h = drop_past n s t (omega arith) ∙ ap (λ k. drop k t) (omega arith)

  drop_left : (n : ℕ) (s : List A) → n < length s → (x : A) × (r : List A) × (drop n s ≡ x ∷ r)
  drop_left n [] h = absurd (omega arith)
  drop_left zero (x ∷ s) h = (x, s, refl)
  drop_left (suc n) (x ∷ s) h = drop_left n s (omega arith)

  drop_all : (n : ℕ) (s : List A) → length s ≤ n → drop n s ≡ []
  drop_all zero [] h = refl
  drop_all zero (x ∷ s) h = absurd (omega arith)
  drop_all (suc n) [] h = refl
  drop_all (suc n) (x ∷ s) h = drop_all n s (omega arith)

  take_fewer : (n : ℕ) (s t : List A) → n ≤ length s → take n (s ++ t) ≡ take n s
  take_fewer zero s t h = refl
  take_fewer (suc n) [] t h = absurd (omega arith)
  take_fewer (suc n) (x ∷ s) t h = ap (λ r. x ∷ r) (take_fewer n s t (omega arith))

  length-take : (n : ℕ) (s : List A) → n ≤ length s → length (take n s) ≡ n
  length-take zero s h = refl
  length-take (suc n) [] h = absurd (omega arith)
  length-take (suc n) (x ∷ s) h = ap suc (length-take n s (omega arith))

  length-drop : (n : ℕ) (s : List A) → length (drop n s) ≡ length s - n
  length-drop zero s = omega arith
  length-drop (suc n) [] = omega arith
  length-drop (suc n) (x ∷ s) = omega (arith, length-drop n s)

  -- what lies at the end of a list, written over
  set-append : (s : List A) (x y : A) (t : List A) → set (s ++ x ∷ t) (length s) y ≡ s ++ y ∷ t
  set-append [] x y t = refl
  set-append (z ∷ s) x y t = ap (λ r. z ∷ r) (set-append s x y t)

take-IsString : (n : ℕ) (s : Bytes) → IsString s → IsString (take n s)
take-IsString zero s h = tt
take-IsString (suc n) [] h = tt
take-IsString (suc n) (x ∷ s) h = (h.0, take-IsString n s h.1)

drop-IsString : (n : ℕ) (s : Bytes) → IsString s → IsString (drop n s)
drop-IsString zero s h = h
drop-IsString (suc n) [] h = tt
drop-IsString (suc n) (x ∷ s) h = drop-IsString n s h.1

str_len-append : (s t : Bytes) → IsString s → str_len (s ++ 0 ∷ t) ≡ some (length s)
unfolding str_len
str_len-append [] t h = refl
str_len-append (x ∷ s) t h = ground (arith, str_len-append s t h.1)

pub c_str-append : (s t : Bytes) → IsString s → c_str (s ++ 0 ∷ t) ≡ s
unfolding c_str
c_str-append [] t h = refl
c_str-append (x ∷ s) t h = ground (arith, c_str-append s t h.1)

-- a buffer of that length that holds that string
pub record Holds (s : Bytes) (size : ℕ) (buf : Option Bytes) : Type 0 where
  pub stale : Bytes
  pub shape : buf ≡ some (s ++ 0 ∷ stale)
  pub sized : length s + suc (length stale) ≡ size

-- a value that is shorter than the string
copy_inside :
    (v pad s stale : Bytes)
    → length v < length s
    → copy_value (length v) (v ++ pad) (length s) (s ++ 0 ∷ stale)
      ≡ some ((v ++ drop (length v) s) ++ 0 ∷ stale)
unfolding copy_value
copy_inside v pad s stale lt =
    rw
      (
        take-append v pad,
        drop_inside (length v) s (0 ∷ stale) (omega arith),
        append_assoc v (drop (length v) s) (0 ∷ stale),
      )
      (ground (arith, length-append v pad))

-- one that reaches its end, or goes past it
copy_over :
    (v pad s stale : Bytes)
    → length s ≤ length v
    → length v < length s + suc (length stale)
    → (rest : Bytes) × (copy_value (length v) (v ++ pad) (length s) (s ++ 0 ∷ stale)
        ≡ some (v ++ 0 ∷ rest))
      × (length v + suc (length rest) ≡ length s + suc (length stale))
unfolding copy_value
copy_over v pad s stale ge lt =
    let (x, rest, e) = drop_left (length v - length s) (0 ∷ stale) (omega arith) in
    (
      rest,
      rw (take-append v pad, drop_past (length v) s (0 ∷ stale) ge, e, set-append v x 0 rest)
          (ground (arith, length-append v pad, length-append s (0 ∷ stale))),
      omega (arith, length-drop (length v - length s) (0 ∷ stale), ap length e),
    )

paste-copy :
    (v pad s stale : Bytes)
    → IsString s
    → length v < length s + suc (length stale)
    → paste (length v) (v ++ pad) (s ++ 0 ∷ stale)
      ≡ copy_value (length v) (v ++ pad) (length s) (s ++ 0 ∷ stale)
unfolding paste
paste-copy v pad s stale h lt =
    ap (copy_at (length v) (v ++ pad) (s ++ 0 ∷ stale)) (str_len-append s stale h)
    ∙ ap (λ n. copy_value n (v ++ pad) (length s) (s ++ 0 ∷ stale))
        (omega (arith, length-append s (0 ∷ stale)))

-- the string is pasted over from its start on
pub paste-Holds :
    (v pad s stale : Bytes)
    → IsString s
    → length v < length s + suc (length stale)
    → Holds
        (v ++ drop (length v) s)
        (length s + suc (length stale))
        (paste (length v) (v ++ pad) (s ++ 0 ∷ stale))
paste-Holds v pad s stale h lt =
    let e = paste-copy v pad s stale h lt in
    elim (Bool-cases (ltb (length v) (length s))) [
      | inl inside ↦ record {
        stale = stale;
        shape = e ∙ copy_inside v pad s stale (ground arith);
        sized = ground (arith, length-append v (drop (length v) s), length-drop (length v) s);
      }
      | inr over ↦
          let (rest, f, l) = copy_over v pad s stale (ground arith) lt in
          record {
            stale = rest;
            shape = rw (drop_all (length v) s (ground arith), append-nil v) (e ∙ f);
            sized = rw (drop_all (length v) s (ground arith), append-nil v) l;
          }
    ]

drop-append : {A : Type 0} (s t : List A) → drop (length s) (s ++ t) ≡ t
drop-append [] t = refl
drop-append (x ∷ s) t = drop-append s t

-- a string with its NUL, taken out of a buffer
take-string : (s t : Bytes) → take (length s + 1) (s ++ 0 ∷ t) ≡ s ++ 0 ∷ []
take-string s t = rw (sym (append_assoc s (0 ∷ []) t)) (
    ap (λ n. take n ((s ++ 0 ∷ []) ++ t)) (omega (arith, length-append s (0 ∷ [])))
    ∙ take-append (s ++ 0 ∷ []) t)

-- the rest is moved down over the end of the key
move_tail-key :
    (n : ℕ) (key rest stale : Bytes)
    → IsString rest
    → n ≤ length key
    → Holds
        (take n key ++ rest)
        (length key + length rest + suc (length stale))
        (move_tail n (length key) (key ++ (rest ++ 0 ∷ stale)))
unfolding move_tail
move_tail-key n key rest stale h le =
    let buf : Bytes = key ++ (rest ++ 0 ∷ stale) in
    record {
      stale = drop (n + (length rest + 1)) buf;
      shape =
          ap (moved n (length key) buf)
            (ap str_len (drop-append key (rest ++ 0 ∷ stale)) ∙ str_len-append rest stale h)
          ∙ ap some (
              rw
                (
                  take_fewer n key (rest ++ 0 ∷ stale) le,
                  drop-append key (rest ++ 0 ∷ stale),
                  take-string rest stale,
                  append_assoc rest (0 ∷ []) (drop (n + (length rest + 1)) buf),
                  append_assoc (take n key) rest (0 ∷ drop (n + (length rest + 1)) buf),
                )
                refl);
      sized = omega (
        arith,
        length-append (take n key) rest,
        length-take n key le,
        length-drop (n + (length rest + 1)) buf,
        length-append key (rest ++ 0 ∷ stale),
        length-append rest (0 ∷ stale),
      );
    }

edit-short :
    (key rest v pad stale : Bytes)
    → IsString key
    → IsString rest
    → length v < length key
    → Holds (v ++ rest) (length key + length rest + suc (length stale)) (
        then_paste
          (length v)
          (v ++ pad)
          (move_tail (length v) (length key) (key ++ (rest ++ 0 ∷ stale))))
edit-short key rest v pad stale hk hr lt =
    let n = length v in
    let m = move_tail-key n key rest stale hr (omega arith) in
    let len = length-take n key (omega arith) in
    let short = take n key ++ rest in
    let p =
      paste-Holds v pad short m.stale (All-append _ (take n key) rest (take-IsString n key hk) hr)
        (omega (arith, length-append (take n key) rest)) in
    let left : drop n short ≡ rest =
      ap (λ k. drop k short) (sym len) ∙ drop-append (take n key) rest in
    record {
      stale = p.stale;
      shape =
          ap (then_paste n (v ++ pad)) m.shape
          ∙ subst (λ r. paste n (v ++ pad) (short ++ 0 ∷ m.stale) ≡ some ((v ++ r) ++ 0 ∷ p.stale))
              left p.shape;
      sized = omega (
        arith,
        p.sized,
        m.sized,
        ap length left,
        length-append v rest,
        length-append v (drop n short),
      );
    }

edit-long :
    (key rest v pad stale : Bytes)
    → IsString key
    → IsString rest
    → length key ≤ length v
    → length v < length key + length rest + suc (length stale)
    → Holds
        (v ++ drop (length v - length key) rest)
        (length key + length rest + suc (length stale))
        (paste (length v) (v ++ pad) (key ++ (rest ++ 0 ∷ stale)))
edit-long key rest v pad stale hk hr le lt =
    let p =
      paste-Holds v pad (key ++ rest) stale (All-append _ key rest hk hr)
        (omega (arith, length-append key rest)) in
    rw
      (
        sym (append_assoc key rest (0 ∷ stale)),
        sym (drop_past (length v) key rest le),
        sym (length-append key rest),
      )
      p

edit_moves :
    (key num : ℕ) (replace buf : Bytes)
    → 0 < num
    → num < key
    → edit key num replace buf ≡ then_paste num replace (move_tail num key buf)
unfolding edit
edit_moves key num replace buf h lt = ground arith

edit_stays :
    (key num : ℕ) (replace buf : Bytes)
    → 0 < num
    → key ≤ num
    → edit key num replace buf ≡ paste num replace buf
unfolding edit
edit_stays key num replace buf h le = ground arith

-- The value replaces the key if it is shorter, with what stood behind the key moved up to it; a
-- longer value is written over what stands behind the key. The buffer keeps its size.
pub edit-Holds :
    (key rest v pad stale : Bytes)
    → IsString key
    → IsString rest
    → 0 < length v
    → length v < length key + length rest + suc (length stale)
    → Holds
        (v ++ drop (length v - length key) rest)
        (length key + length rest + suc (length stale))
        (edit (length key) (length v) (v ++ pad) (key ++ (rest ++ 0 ∷ stale)))
unfolding edit
edit-Holds key rest v pad stale hk hr h0 lt = elim (Bool-cases (ltb (length v) (length key))) [
  | inl short ↦
      rw (edit_moves (length key) (length v) (v ++ pad) _ h0 (ground arith), all_left short)
        (edit-short key rest v pad stale hk hr (ground arith))
  | inr long ↦
      rw (edit_stays (length key) (length v) (v ++ pad) _ h0 (ground arith))
        (edit-long key rest v pad stale hk hr (ground arith) lt)
]
  where
    all_left : ltb (length v) (length key) ≡ true → drop (length v - length key) rest ≡ rest
    all_left short =
        let gone : length v - length key ≡ 0 = ground arith in ap (λ n. drop n rest) gone
