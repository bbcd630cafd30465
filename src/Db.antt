-- ===== src/Db.antt =====
-- internal/db/db.go: rows of the price history and the reading half of the interface `Store`.
pub mod Table
pub mod Queries
pub mod Connect
use Prim.Native.String.{String}
use ve_xchange_api.Prelude.{Bool, Option, List}
use ve_xchange_api.Prelude.Dict.{Dict}
use ve_xchange_api.GoTime.{Time}

pub record HistoryEntry {ℓ} (F : Type ℓ) : Type ℓ where
  pub value : F
  pub recorded_at : Time
  pub is_average : Bool

-- What the handlers ask of a store. `none` is an error, whose text they do not use.
pub record Store {ℓ} (F : Type ℓ) : Type ℓ where
  pub get_history : String → Time → Time → Option (List (HistoryEntry F))
  pub get_latest_rates : Option (Dict (HistoryEntry F))
