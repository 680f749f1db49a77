-- ===== src/Float.antt =====
-- Python's `float`: IEEE arithmetic is not written in the repository, so its operations are a
-- parameter. `decimal m k` is the literal m / 10^k.
use iwiki_mcp.Prelude.{ℕ, ◌≡◌, Bool, true, false, if◌then◌else◌, nat_eq, list_eq}

pub record Float : Type 1 where
  pub F : Type 0
  pub add : F → F → F
  pub sub : F → F → F
  pub mul : F → F → F
  pub div : F → F → F
  pub lt : F → F → Bool
  pub of_nat : ℕ → F
  pub decimal : ℕ → ℕ → F
  -- `math.ceil(x)` and `int(x)` of an `x` that is not negative
  pub ceil : F → ℕ
  pub trunc : F → ℕ

-- What the comparison of two floats guarantees, NaN included: never both ways round.
pub record IsOrdered (f : Float) : Type 0 where
  pub lt_asymm : (a b : f.F) → f.lt a b ≡ true → f.lt b a ≡ false

module _ (f : Float) where
  -- `min(a, b)` and `max(a, b)` keep the first of two that compare neither way.
  unfoldable pub min_float : f.F → f.F → f.F
  min_float a b = if f.lt b a then b else a

  unfoldable pub max_float : f.F → f.F → f.F
  max_float a b = if f.lt a b then b else a
