-- ===== src/State/Interleave.antt =====
-- The two provider goroutines share the state. What one of them does to it commutes with what the
-- other does, so that the order in which they take the mutex does not matter.
use ve_xchange_api.Prelude.{◌≡◌, refl, ap, ◌∙◌, List, [], ◌∷◌, arith}
use ve_xchange_api.GoTime.{Time}
use ve_xchange_api.Rates.{PriceResponse}
use ve_xchange_api.State.{
  State, mark_bcv_failing, clear_bcv_failing, mark_binance_failing, clear_binance_failing,
  update_bcv_price, update_binance_price,
}
use ve_xchange_api.State.Effects.{Provider, bcv, binance, mark_failing, clear_failing, update_price}

-- What a worker does to the state: `Apply`, `OnFail` and `OnRecover`.
pub data Op {ℓ} (F : Type ℓ) : Type ℓ where
  update : Time → PriceResponse F → Op F
  mark clear : Op F

-- An interleaving of the operations of the BCV job and of the Binance job.
pub data Interleaving {ℓ} {F : Type ℓ}
    : List (Op F) → List (Op F) → List (Provider × Op F) → Type ℓ where
  stop : Interleaving [] [] []
  left :
      {x : Op F} {xs ys : List (Op F)} {zs : List (Provider × Op F)}
      → Interleaving xs ys zs
      → Interleaving (x ∷ xs) ys ((bcv, x) ∷ zs)
  right :
      {y : Op F} {xs ys : List (Op F)} {zs : List (Provider × Op F)}
      → Interleaving xs ys zs
      → Interleaving xs (y ∷ ys) ((binance, y) ∷ zs)

module _ {ℓ} {F : Type ℓ} where
  abbrev pub run_op : Provider → Op F → State F → State F
  run_op p (update now resp) s = update_price p now s resp
  run_op p mark s = mark_failing p s
  run_op p clear s = clear_failing p s

  pub run_alone : Provider → List (Op F) → State F → State F
  run_alone p [] s = s
  run_alone p (x ∷ xs) s = run_alone p xs (run_op p x s)

  pub run_together : List (Provider × Op F) → State F → State F
  run_together [] s = s
  run_together ((p, x) ∷ zs) s = run_together zs (run_op p x s)

  ops_commute :
      (x y : Op F) (s : State F)
      → run_op bcv x (run_op binance y s) ≡ run_op binance y (run_op bcv x s)
  unfolding update_bcv_price update_binance_price mark_bcv_failing clear_bcv_failing
      mark_binance_failing clear_binance_failing
  ops_commute x y s = ground arith

  run_alone-run_op :
      (xs : List (Op F)) (y : Op F) (s : State F)
      → run_alone bcv xs (run_op binance y s) ≡ run_op binance y (run_alone bcv xs s)
  unfolding run_alone
  run_alone-run_op [] y s = refl
  run_alone-run_op (x ∷ xs) y s =
      ap (run_alone bcv xs) (ops_commute x y s) ∙ run_alone-run_op xs y (run_op bcv x s)

  -- Every interleaving of the two jobs' operations leaves the state that the BCV job's operations
  -- followed by the Binance job's leave.
  pub run_together-eq :
      {xs ys : List (Op F)} {zs : List (Provider × Op F)} (s : State F)
      → Interleaving xs ys zs
      → run_together zs s ≡ run_alone binance ys (run_alone bcv xs s)
  unfolding run_together run_alone
  run_together-eq s stop = refl
  run_together-eq s (left {x = x} i) = run_together-eq (run_op bcv x s) i
  run_together-eq s (right {y = y} {xs = xs} {ys = ys} i) =
      run_together-eq (run_op binance y s) i ∙ ap (run_alone binance ys) (run_alone-run_op xs y s)
