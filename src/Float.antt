-- ===== src/Float.antt =====
-- Go's float64 as an interface: the operations that the program calls, and the laws of the IEEE
-- comparisons between values that are no NaN.
use ai_aggregator.Prelude.{◌≡◌, Bool, true, false, ◌||◌, not}
use ai_aggregator.Prelude.Int.{ℤ}

pub record Float : Type 1 where
  pub F : Type 0
  pub add : F → F → F
  pub mul : F → F → F
  pub of_ℤ : ℤ → F
  pub flt : F → F → Bool
  pub feq : F → F → Bool
  -- The value is no NaN.
  pub IsNumber : F → Type 0
  pub flt_asym : (a b : F) → IsNumber a → IsNumber b → flt a b ≡ true → flt b a ≡ false
  pub feq_def : (a b : F) → IsNumber a → IsNumber b → feq a b ≡ not (flt a b || flt b a)
  pub flt_cotrans :
      (a b c : F)
      → IsNumber a
      → IsNumber b
      → IsNumber c
      → flt a b ≡ false
      → flt b c ≡ false
      → flt a c ≡ false

-- a <= b
abbrev pub fle : (fl : Float) → fl.F → fl.F → Bool
fle fl a b = fl.flt a b || fl.feq a b
