-- ===== src/Float.antt =====
-- Python's `float` (and Postgres' DOUBLE PRECISION): a type with the operations that the code
-- uses. Nothing is assumed of the rounding, so the operations have no laws.
use heltec_wifi_optimization.Prelude.{ℕ, Bool, List, foldl, length}

pub record Float (F : Type 0) : Type 0 where
  -- an `int` converted to a `float`
  pub of_ℕ : ℕ → F
  -- `m / n` of two `int`s; the code calls it with `n` above 0
  pub div_ℕ : ℕ → ℕ → F
  pub add : F → F → F
  pub mul : F → F → F
  -- `x / y`; the code calls it with `y` other than 0
  pub div : F → F → F
  pub le : F → F → Bool
  pub lt : F → F → Bool
  pub is_zero : F → Bool

module _ {F : Type 0} ⦃fl : Float F⦄ where
  -- `sum(values) / len(values)`; `sum` starts at 0
  abbrev pub mean : List F → F
  mean values = fl.div (foldl fl.add (fl.of_ℕ 0) values) (fl.of_ℕ (length values))
