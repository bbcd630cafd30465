-- ===== src/Prelude/Float.antt =====
-- What the program does with a `float64`. The numbers themselves are Go's, not the program's, so they
-- are a parameter: a type with these operations. Comparisons with NaN answer false, as IEEE 754 says.
use Prim.Native.Nat.{ℕ}
use mathlib.Core.Bool.{Bool, ◌||◌}

pub record Float64 {ℓ} (F : Type ℓ) : Type ℓ where
  pub nought : F
  pub add : F → F → F
  pub div : F → F → F
  -- float64(n) for an `int` that is not negative
  pub of_count : ℕ → F
  -- int(x) for an x that is not negative
  pub trunc : F → ℕ
  pub le : F → F → Bool
  pub is_nan : F → Bool
  -- math.IsInf(x, 0)
  pub is_inf : F → Bool

module _ {ℓ} {F : Type ℓ} ⦃f : Float64 F⦄ where
  -- math.IsNaN(x) || math.IsInf(x, 0)
  abbrev pub is_non_finite : F → Bool
  is_non_finite x = f.is_nan x || f.is_inf x
