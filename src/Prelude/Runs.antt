-- ===== src/Prelude/Runs.antt =====
-- What a run of some code does: its effects in order, and whether it ended with an error.
use Prim.Native.String.{String}
use mathlib.Core.Option.{Option, none, some}
use mathlib.Core.List.{List, [], ◌∷◌, ◌++◌}

pub data Run {ℓ} (E : Type 0) (A : Type ℓ) : Type ℓ where
  done : List E → A → Run E A
  failed : List E → String → Run E A

module _ {ℓ} {E : Type 0} {A : Type ℓ} where
  abbrev pub after : List E → Run E A → Run E A
  after log (done more a) = done (log ++ more) a
  after log (failed more e) = failed (log ++ more) e

  -- The effects of a run, also of one that failed.
  abbrev pub effects : Run E A → List E
  effects (done log a) = log
  effects (failed log e) = log

module _ {ℓ κ} {E : Type 0} {A : Type ℓ} {B : Type κ} where
  infixl 5 ◌>>=◌ ◌>>◌
  abbrev pub ◌>>=◌ : Run E A → (A → Run E B) → Run E B
  done log a >>= f = after log (f a)
  failed log e >>= f = failed log e

  abbrev pub ◌>>◌ : Run E A → Run E B → Run E B
  m >> k = m >>= λ _. k

abbrev pub emit : {E : Type 0} → E → Run E (Unit {0})
emit e = done (e ∷ []) tt

-- A call of another service: `none` is the nil error.
abbrev pub after_call : {E : Type 0} → Option String → Run E (Unit {0})
after_call none = done [] tt
after_call (some e) = failed [] e
