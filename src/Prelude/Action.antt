-- ===== src/Prelude/Action.antt =====
-- Calls that read and change a world and that can fail. What a call changed before it failed stays
-- changed.
use ve_xchange_api.Prelude.Result.{Result, ok, err}
use Prim.Native.Nat.{ℕ, ◌+◌, ◌≤◌}
use native.Mathlib.Omega.{arith}

abbrev pub Action {ℓ κ ι} : Type ℓ → Type κ → Type ι → Type (ℓ ⊔ κ ⊔ ι)
Action W E A = W → Result E A × W

module _ {ℓ κ ι} {W : Type ℓ} {E : Type κ} {A : Type ι} where
  abbrev pub pure : A → Action W E A
  pure a w = (ok a, w)

  abbrev pub raise : E → Action W E A
  raise e w = (err e, w)

  -- A result that no call of the world is needed for.
  abbrev pub lift : Result E A → Action W E A
  lift r w = (r, w)

infixl 5 ◌>>=◌
abbrev pub ◌>>=◌ {ℓ κ ι ο} :
    {W : Type ℓ} {E : Type κ} {A : Type ι} {B : Type ο}
    → Action W E A
    → (A → Action W E B)
    → Action W E B
◌>>=◌ m f w = let (r, w') = m w in elim r [ ok a ↦ f a w' | err e ↦ (err e, w') ]

-- `if err != nil { return …, fmt.Errorf("…: %w", err) }`
abbrev pub wrap_err {κ κ' ι} :
    {E : Type κ} {E' : Type κ'} {A : Type ι} → (E → E') → Result E A → Result E' A
wrap_err f (ok a) = ok a
wrap_err f (err e) = err (f e)

abbrev pub wrap {ℓ κ κ' ι} :
    {W : Type ℓ} {E : Type κ} {E' : Type κ'} {A : Type ι} → (E → E') → Action W E A → Action W E' A
wrap f m w = let (r, w') = m w in (wrap_err f r, w')

-- A call raises a count by at most `n`, whether it succeeds or not.
abbrev pub Costs {ℓ κ ι} :
    {W : Type ℓ} {E : Type κ} {A : Type ι} → (W → ℕ) → ℕ → Action W E A → Type ℓ
Costs {W = W} count n m = (w : W) → count (m w).1 ≤ count w + n

module _ {ℓ κ ι ο} {W : Type ℓ} {E : Type κ} {A : Type ι} {B : Type ο} (count : W → ℕ) where
  chained : (A → Action W E B) → Result E A × W → Result E B × W
  chained f (r, w) = elim r [ ok a ↦ f a w | err e ↦ (err e, w) ]

  chained-le :
      (n : ℕ) (f : A → Action W E B)
      → ((a : A) → Costs count n (f a))
      → (r : Result E A × W) → count (chained f r).1 ≤ count r.1 + n
  unfolding chained
  chained-le n f h (ok a, w) = h a w
  chained-le n f h (err e, w) = omega arith

  pub >>=-Costs :
      (k n : ℕ) (m : Action W E A) (f : A → Action W E B)
      → Costs count k m
      → ((a : A) → Costs count n (f a))
      → Costs count (k + n) (m >>= f)
  unfolding chained
  >>=-Costs k n m f hm hf w = omega (arith, chained-le n f hf (m w), hm w)
