-- ===== src/Provider/Average/Mean.antt =====
-- `averageValid` is the mean of the valid prices.
use ve_xchange_api.Prelude.{
  ℕ, ◌+◌, ◌≡◌, ◌≢◌, refl, ap, ◌∙◌, Bool, not, ◌&&◌, false, List, [], ◌∷◌, arith, Bool-cases, inl,
  inr, if◌then◌else◌, length,
}
use ve_xchange_api.Prelude.Float.{Float64, is_non_finite}
use ve_xchange_api.Prelude.Result.{Result, ok, err}
use ve_xchange_api.Provider.Average.{
  AverageError, no_valid_prices, non_finite, is_skipped, conclude, average_loop, average_valid,
}

module _ {ℓ} {F : Type ℓ} ⦃f : Float64 F⦄ where
  -- A price that is positive and finite.
  pub record IsPrice (x : F) : Type ℓ where
    pub is_number : f.is_nan x ≡ false
    pub is_finite : f.is_inf x ≡ false
    pub is_positive : f.le x f.nought ≡ false

  -- The second list is made of the prices of the first that are positive and finite, in their order.
  pub data Picks : List F → List F → Type ℓ where
    done : Picks [] []
    pick : {x : F} {xs ys : List F} → IsPrice x → Picks xs ys → Picks (x ∷ xs) (x ∷ ys)
    skip : {x : F} {xs ys : List F} → (IsPrice x → ⊥) → Picks xs ys → Picks (x ∷ xs) ys

  abbrev pub is_price : F → Bool
  is_price x = not (f.le x f.nought) && not (f.is_inf x) && not (f.is_nan x)

  abbrev pub valid_prices : List F → List F
  valid_prices [] = []
  valid_prices (x ∷ xs) = if is_price x then x ∷ valid_prices xs else valid_prices xs

  valid_prices-Picks : (xs : List F) → Picks xs (valid_prices xs)
  valid_prices-Picks [] = done
  valid_prices-Picks (x ∷ xs) = elim (Bool-cases (is_price x)) [
    | inl valid ↦ rw valid (
        pick
          (record {
            is_number = ground arith;
            is_finite = ground arith;
            is_positive = ground arith;
          })
          (valid_prices-Picks xs))
    | inr other ↦ rw other (
        skip (λ p. ground (arith, p.is_number, p.is_finite, p.is_positive)) (valid_prices-Picks xs))
  ]

  -- What the loop skips is what is no price.
  is_skipped-eq : (x : F) → is_skipped x ≡ not (is_price x)
  is_skipped-eq x = ground arith

  abbrev pub sum_from : F → List F → F
  sum_from acc [] = acc
  sum_from acc (x ∷ xs) = sum_from (f.add acc x) xs

  average_loop-eq :
      (acc : F) (n : ℕ) (xs : List F)
      → average_loop acc n xs
        ≡ conclude (sum_from acc (valid_prices xs)) (n + length (valid_prices xs))
  unfolding average_loop
  average_loop-eq acc n [] = ap (conclude acc) (omega arith)
  average_loop-eq acc n (x ∷ xs) = elim (Bool-cases (is_price x)) [
    | inr other ↦ rw (is_skipped-eq x, other) (average_loop-eq acc n xs)
    | inl valid ↦
        rw (is_skipped-eq x, valid)
          (average_loop-eq (f.add acc x) (n + 1) xs
            ∙ ap (conclude (sum_from (f.add acc x) (valid_prices xs))) (omega arith))
  ]

  -- The mean of some prices, if there are any and it is finite.
  abbrev pub mean : List F → Result (AverageError F) F
  mean [] = err no_valid_prices
  mean (x ∷ xs) =
      let avg = f.div (sum_from f.nought (x ∷ xs)) (f.of_count (length (x ∷ xs))) in
      if is_non_finite avg then err (non_finite avg) else ok avg

  conclude-mean : (xs : List F) → conclude (sum_from f.nought xs) (length xs) ≡ mean xs
  conclude-mean [] = refl
  conclude-mean (x ∷ xs) = ground arith

  pub average_valid-valid_prices : (xs : List F) → average_valid xs ≡ mean (valid_prices xs)
  unfolding average_valid
  average_valid-valid_prices xs =
      average_loop-eq f.nought 0 xs
      ∙ ap (conclude (sum_from f.nought (valid_prices xs))) (omega arith)
      ∙ conclude-mean (valid_prices xs)

  mean_ok : (xs : List F) (v : F) → mean xs ≡ ok v → (is_non_finite v ≡ false) × (xs ≢ [])
  mean_ok [] v e = absurd (cc)
  mean_ok (x ∷ xs) v e = ground arith

  -- A value that is returned is finite, and one of the prices is valid.
  pub average_valid_ok :
      (xs : List F) (v : F)
      → average_valid xs ≡ ok v
      → (is_non_finite v ≡ false) × (valid_prices xs ≢ [])
  average_valid_ok xs v e = mean_ok (valid_prices xs) v (rw average_valid-valid_prices at e)

  -- The result is the mean of the prices that are positive and finite, summed in their order; it is an
  -- error exactly when there are none or their mean is not finite.
  pub average_valid-mean :
      (xs : List F) → (ys : List F) × Picks xs ys × (average_valid xs ≡ mean ys)
  average_valid-mean xs = (valid_prices xs, valid_prices-Picks xs, average_valid-valid_prices xs)
