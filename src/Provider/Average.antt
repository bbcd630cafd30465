-- ===== src/Provider/Average.antt =====
-- `averageValid` of internal/provider/binanceProvider.go, over any numbers with the operations of a
-- `float64`.
pub mod Mean
use ve_xchange_api.Prelude.{ℕ, ◌+◌, Bool, not, ◌||◌, List, [], ◌∷◌, ◌==◌, if◌then◌else◌}
use ve_xchange_api.Prelude.Float.{Float64, is_non_finite}
use ve_xchange_api.Prelude.Result.{Result, ok, err}

pub data AverageError {ℓ} (F : Type ℓ) : Type ℓ where
  no_valid_prices : AverageError F
  non_finite : F → AverageError F

module _ {ℓ} {F : Type ℓ} ⦃f : Float64 F⦄ where
  -- The test that makes the loop `continue`.
  abbrev pub is_skipped : F → Bool
  is_skipped val = f.is_nan val || f.is_inf val || f.le val f.nought

  -- The code after the loop.
  abbrev pub conclude : F → ℕ → Result (AverageError F) F
  conclude acc valid_count =
      let avg = f.div acc (f.of_count valid_count) in
      if valid_count == 0
      then err no_valid_prices
      else if is_non_finite avg
      then err (non_finite avg)
      else ok avg

  unfoldable pub average_loop : F → ℕ → List F → Result (AverageError F) F
  average_loop acc valid_count [] = conclude acc valid_count
  average_loop acc valid_count (val ∷ prices) =
      average_loop (if is_skipped val then acc else f.add acc val)
        (if is_skipped val then valid_count else valid_count + 1) prices

  unfoldable pub average_valid : List F → Result (AverageError F) F
  unfolding average_loop
  average_valid prices = average_loop f.nought 0 prices
