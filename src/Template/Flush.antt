-- ===== src/Template/Flush.antt =====
-- A whole template: cfg_update_online and then cfg_flush_online.
use vzgot.Base.{◌≤◌, ◌≡◌, refl, ap, ◌∙◌, true, false, some, List, [], ◌∷◌, map, length, All, arith}
use vzgot.Text.{Bytes}
use vzgot.Template.Substitute.{IsText, Part, IsPart, line_with, filled, show_line-filled}
use vzgot.Template.{
  Var, Template, Value, cons_shown, show_lines, update_online, print_lines, flush_online,
}

-- a line of a template, cut at its keys
pub record Line : Type 0 where
  pub parts : List Part
  pub tail : Bytes

abbrev pub source : Line → Bytes
source l = line_with l.parts l.tail

abbrev pub result : Line → Bytes
result l = filled l.parts l.tail

module _ (value : Value) where
  pub record IsLine (vars : List Var) (l : Line) : Type 0 where
    pub few : length l.parts ≤ 10
    pub fits : length (source l) ≤ 399
    pub are_parts : All (IsPart value vars) l.parts
    pub ends : IsText l.tail

  show_lines-filled :
      (old : Bytes → Bytes) (vars : List Var) (ls : List Line)
      → All (IsLine vars) ls
      → show_lines value old vars (map source ls) ≡ some (map result ls)
  unfolding show_lines
  show_lines-filled old vars [] h = refl
  show_lines-filled old vars (l ∷ ls) h =
      let g = h.0 in
      ap (λ r. cons_shown r (show_lines value old vars (map source ls)))
        (show_line-filled value vars old l.parts l.tail g.few g.fits g.are_parts g.ends)
      ∙ ap (cons_shown (some (result l))) (show_lines-filled old vars ls h.1)

  -- When a template's lines are good ones and the status can be had, cfg_update_online returns
  -- false all the same, and cfg_flush_online then prints each line with its values, in order and
  -- ended by a line feed, and returns true; called once more it prints nothing and returns false.
  pub flush-update :
      (old : Bytes → Bytes) (tpl : Template) (l : Line) (ls : List Line)
      → tpl.lines ≡ map source (l ∷ ls)
      → All (IsLine tpl.vars) (l ∷ ls)
      → (t u : Template) × (update_online value old true tpl ≡ some (false, t))
        × (flush_online t ≡ (true, print_lines (map result (l ∷ ls)), u))
        × (flush_online u ≡ (false, [], u))
  unfolding update_online flush_online
  flush-update old tpl l ls e h =
      let shown : show_lines value old tpl.vars tpl.lines ≡ some (map result (l ∷ ls)) =
        ap (show_lines value old tpl.vars) e ∙ show_lines-filled old tpl.vars (l ∷ ls) h in
      let t : Template = record tpl { updated = map result (l ∷ ls) } in
      (t, record t { updated = [] }, ground (arith, shown), ground arith, refl)
