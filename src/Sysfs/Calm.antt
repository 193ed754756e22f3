-- ===== src/Sysfs/Calm.antt =====
-- What a function adds to the trace.
use vzgot.Base.{Bool, true, false, ◌∷◌}
use vzgot.Sysfs.{
  Dir, Register, Datum, Op, open_file, write, Trace, World, Ret, Cmd, go_on, ◌>>◌, ignoring, call,
  open_and_write,
}

-- the second trace is the first one with calls behind it that all satisfy `P`
pub data Grows (P : Op × Bool → Type 0) (t : Trace) : Trace → Type 0 where
  stay : Grows P t t
  more : (e : Op × Bool) (t' : Trace) → P e → Grows P t t' → Grows P t (e ∷ t')

pub Grows-trans : {P : Op × Bool → Type 0} (t u v : Trace) → Grows P t u → Grows P u v → Grows P t v
Grows-trans t u v g stay = g
Grows-trans t u v g (more e t' p h) = more e t' p (Grows-trans t u t' g h)

abbrev pub Adds : (Op × Bool → Type 0) → Cmd → Type 0
Adds P m = (t : Trace) → Grows P t (m t).1

module _ (P : Op × Bool → Type 0) where
  pub return-Adds : (b : Bool) → Adds P (λ t. (b, t))
  return-Adds b t = stay

  go_on-Grows : (t : Trace) (r : Ret) (k : Cmd) → Grows P t r.1 → Adds P k → Grows P t (go_on r k).1
  go_on-Grows t (true, u) k g h = Grows-trans t u (k u).1 g (h u)
  go_on-Grows t (false, u) k g h = g

  pub >>-Adds : (m k : Cmd) → Adds P m → Adds P k → Adds P (m >> k)
  >>-Adds m k f g t = go_on-Grows t (m t) k (f t) g

  pub ignoring-Adds : (m k : Cmd) → Adds P m → Adds P k → Adds P (ignoring m k)
  ignoring-Adds m k f g t = Grows-trans t (m t).1 (k (m t).1).1 (f t) (g (m t).1)

  module _ (w : World) where
    pub call-Adds : (op : Op) → ((b : Bool) → P (op, b)) → Adds P (call w op)
    unfolding call
    call-Adds op p t = more (op, w.answer t op) t (p (w.answer t op)) stay

    pub open_and_write-Adds :
        (result : Bool) (dir : Dir) (file : Register) (datum : Datum)
        → ((b : Bool) → P (open_file dir file, b))
        → ((b : Bool) → P (write dir file datum, b))
        → Adds P (open_and_write w result dir file datum)
    unfolding open_and_write
    open_and_write-Adds result dir file datum p q =
        ignoring-Adds (call w (open_file dir file) >> call w (write dir file datum))
          (λ t. (result, t))
          (>>-Adds (call w (open_file dir file)) (call w (write dir file datum))
            (call-Adds (open_file dir file) p) (call-Adds (write dir file datum) q))
          (return-Adds result)
