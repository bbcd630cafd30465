-- ===== src/Rates.antt =====
-- internal/rates/rates.go: what a provider returns.
use ve_xchange_api.Prelude.{Option}
use ve_xchange_api.Prelude.Dict.{Dict}
use ve_xchange_api.GoTime.{Time}

pub record PriceResponse {ℓ} (F : Type ℓ) : Type ℓ where
  pub values : Dict F
  pub effective_date : Option Time
