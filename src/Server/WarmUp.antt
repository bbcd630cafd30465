-- ===== src/Server/WarmUp.antt =====
-- The warm-up from the database.
use text.Mathlib.Text.{◌==◌}
use ve_xchange_api.Prelude.{false, ◌≡◌, refl, Option, none, some, [], ◌∷◌}
use ve_xchange_api.Prelude.Dict.{Dict, lookup, map_values, lookup-map_values}
use ve_xchange_api.State.{State}
use ve_xchange_api.State.Effects.{
  Rate, usd_bcv, eur_bcv, usdt, usdt_compra, usdt_venta, key_of, rate_of-warm_up, rate_of_ext,
}
use ve_xchange_api.Db as Db
use ve_xchange_api.Handler.Staleness.{name_of}
use ve_xchange_api.Server.{to_warm, warm_start}

name-ne-key : (r q : Rate) → (name_of r == key_of q) ≡ false
name-ne-key usd_bcv usd_bcv = refl
name-ne-key usd_bcv _ = refl
name-ne-key eur_bcv usd_bcv = refl
name-ne-key eur_bcv _ = refl
name-ne-key usdt usd_bcv = refl
name-ne-key usdt _ = refl
name-ne-key usdt_compra usd_bcv = refl
name-ne-key usdt_compra _ = refl
name-ne-key usdt_venta usd_bcv = refl
name-ne-key usdt_venta _ = refl

module _ {ℓ} {V : Type ℓ} where
  -- Every key of a map is the name of a rate in the interface, as `InsertRate` is called with.
  abbrev pub KeysAreNames : Dict V → Type 0
  KeysAreNames [] = Unit
  KeysAreNames ((k, v) ∷ m) = ((r : Rate) × (k ≡ name_of r)) × KeysAreNames m

  -- The same of what a query returns, if it succeeds.
  abbrev pub FoundUnderNames : Option (Dict V) → Type 0
  FoundUnderNames none = Unit
  FoundUnderNames (some m) = KeysAreNames m

  lookup-key_of : (q : Rate) (m : Dict V) → KeysAreNames m → lookup (key_of q) m ≡ none
  unfolding lookup
  lookup-key_of q [] h = refl
  lookup-key_of q ((k, v) ∷ m) ((r, e), h) = rw (e, name-ne-key r q) (lookup-key_of q m h)

module _ {ℓ} {F : Type ℓ} where
  -- If the rows that the query finds are under the names of the interface, "usd_bcv" and so on, as
  -- the program writes them, the warm-up changes nothing: `WarmUp` looks for the keys of the
  -- providers, "USD_BCV" and so on.
  pub warm_start-eq :
      (s : State F) (latest : Option (Dict (Db.HistoryEntry F)))
      → FoundUnderNames latest
      → warm_start s latest ≡ s
  unfolding warm_start
  warm_start-eq s none h = refl
  warm_start-eq s (some []) h = refl
  warm_start-eq s (some (e ∷ es)) h = rate_of_ext _ s λ r. rw (
    rate_of-warm_up r s (map_values to_warm (e ∷ es)),
    lookup-map_values to_warm (key_of r) (e ∷ es),
    lookup-key_of r (e ∷ es) h,
  )
