-- ===== src/Template/Update.antt =====
-- One variable in a line: what adjusting does at its key.
use vzgot.Base.{
  ℕ, suc, ◌+◌, ◌-◌, ◌≤◌, ◌<◌, ◌≡◌, ◌≢◌, refl, sym, ap, subst, ◌∙◌, true, some, List, [], ◌∷◌, ◌++◌,
  append_assoc, length, drop, length-append, All, All-append, arith,
}
use vzgot.Text.{Bytes, c_str}
use vzgot.Text.Scan.{span_not, span_not-hit, All-map}
use vzgot.Template.Voc.{Known, lookup}
use vzgot.Template.Buffer.{edit}
use vzgot.Template.Edit.{IsString, edit-Holds, c_str-append}
use vzgot.Template.{Var, find_var, Value, answer, resolved, use_var, use_known, name_at, adjusting}

-- the key of a variable in a line
abbrev pub key_of : Bytes → Bytes
key_of name = b'$' ∷ name ++ b':' ∷ []

abbrev pub InKey : ℕ → Type 0
InKey c = (c ≢ 0) × (c ≢ b':')

name_at-key :
    (name rest stale : Bytes)
    → All InKey name
    → length name ≤ 49
    → IsString rest
    → name_at (key_of name ++ (rest ++ 0 ∷ stale)) ≡ name
unfolding name_at
name_at-key name rest stale hn le hr =
    let s = name ++ b':' ∷ rest in
    let shape : (name ++ b':' ∷ []) ++ (rest ++ 0 ∷ stale) ≡ s ++ 0 ∷ stale =
      append_assoc name (b':' ∷ []) (rest ++ 0 ∷ stale)
      ∙ sym (append_assoc name (b':' ∷ rest) (0 ∷ stale)) in
    ap (λ z. (span_not b':' 49 (c_str z)).0) shape
    ∙ ap (λ z. (span_not b':' 49 z).0)
        (c_str-append s stale
          (All-append _ name (b':' ∷ rest) (All-map name (λ x p. p.0) hn) (omega arith, hr)))
    ∙ ap (λ r. r.0) (span_not-hit b':' 49 name rest (All-map name (λ x p. p.1) hn) le)

module _ (value : Value) where
  -- a variable that the template declares and that has a value
  pub record IsShown (vars : List Var) (name v : Bytes) : Type 0 where
    pub found : Known
    pub var : Var
    pub pad : Bytes
    pub is_known : lookup name ≡ some found
    pub is_declared : find_var found.code vars ≡ some var
    pub is_valued : value var ≡ some (length v, v ++ pad)
    pub nonempty : 0 < length v
    pub in_name : All InKey name
    pub name_fits : length name ≤ 49

  adjusting-edit :
      (vars : List Var) (name v rest stale : Bytes) (h : IsShown vars name v)
      → IsString rest
      → adjusting value vars (key_of name ++ (rest ++ 0 ∷ stale))
        ≡ answer true
            (edit (length name + 2) (length v) (v ++ h.pad) (key_of name ++ (rest ++ 0 ∷ stale)))
  unfolding adjusting use_known use_var resolved
  adjusting-edit vars name v rest stale h hr =
      rw
        (
          name_at-key name rest stale h.in_name h.name_fits hr,
          h.is_known,
          h.is_declared,
          h.is_valued,
        )
        refl

  -- At the key of a variable that the template declares, in a line that fits the buffer, adjusting
  -- succeeds, and the line goes on with the variable's value in place of the key. What stands
  -- behind a longer key moves up; a longer value covers as much of it as it needs. The value is at
  -- most as long as `replace`, and shorter than the rest of the buffer, which keeps its size.
  pub adjusting-Holds :
      (vars : List Var) (name v rest stale : Bytes)
      → IsShown vars name v
      → IsString rest
      → length v < length (key_of name) + length rest + suc (length stale)
      → (left : Bytes) × (adjusting value vars (key_of name ++ (rest ++ 0 ∷ stale))
          ≡ some (true, (v ++ drop (length v - length (key_of name)) rest) ++ 0 ∷ left))
        × (length (v ++ drop (length v - length (key_of name)) rest) + suc (length left)
            ≡ length (key_of name) + length rest + suc (length stale))
  adjusting-Holds vars name v rest stale h hr lt =
      let p =
        edit-Holds (key_of name) rest v h.pad stale
          (
            (omega arith),
            All-append _ name (b':' ∷ []) (All-map name (λ x p. p.0) h.in_name) (omega arith, tt),
          )
          hr h.nonempty lt in
      let e = adjusting-edit vars name v rest stale h hr in
      let n : length name + 2 ≡ length (key_of name) =
        omega (arith, length-append name (b':' ∷ [])) in
      (
        p.stale,
        subst
              (λ k.
                adjusting value vars (key_of name ++ (rest ++ 0 ∷ stale))
                ≡ answer true (edit k (length v) (v ++ h.pad) (key_of name ++ (rest ++ 0 ∷ stale))))
              n e
            ∙ ap (answer true) p.shape,
        p.sized,
      )
