-- ===== src/Float.antt =====
-- `double`, which the development does not look into: a type with the operations that the source
-- uses. No law of arithmetic is asked of them.
use peepbooth.Base.{ℕ, Bool}
use peepbooth.Base.Text.{Text}

pub record Float : Type 1 where
  pub Double : Type 0
  pub of_nat : ℕ → Double
  pub add : Double → Double → Double
  pub sub : Double → Double → Double
  pub mul : Double → Double → Double
  pub div : Double → Double → Double
  pub less : Double → Double → Bool
  pub at_least : Double → Double → Bool
  pub neg : Double → Double
  pub fixed : Bool → ℕ → Double → Text  -- with a sign before a positive number, the digits behind the point
