-- ===== src/Server/Backend.antt =====
-- The world outside of `main`'s jobs, put together: the providers of internal/provider over an HTTP
-- client, and the table prices_history of internal/db. `W` is what is left outside: the network, the
-- clock, and whether the database takes a row.
pub mod Fetched
pub mod Served
pub mod Added
use Prim.Native.String.{String}
use ve_xchange_api.Prelude.{Bool, List}
use ve_xchange_api.Prelude.Float.{Float64}
use ve_xchange_api.Prelude.Result.{Result}
use ve_xchange_api.Prelude.Action.{Action, wrap}
use ve_xchange_api.GoTime.{Time}
use ve_xchange_api.Rates.{PriceResponse}
use ve_xchange_api.Db.Table.{Row}
use ve_xchange_api.Db.Table as Table
use ve_xchange_api.Provider.Http.{Http}
use ve_xchange_api.Provider.Retry.{RetryError}
use ve_xchange_api.Provider.Publication.{PublicationError}
use ve_xchange_api.Provider.Binance.{BinanceError, Codec, new_binance_provider}
use ve_xchange_api.Provider.Binance as Binance
use ve_xchange_api.Provider.Bcv.{BcvError, new_bcv_provider}
use ve_xchange_api.Provider.Bcv as Bcv
use ve_xchange_api.Provider.Bcv.Page.{Goquery}
use ve_xchange_api.Server.{Outside}

pub record Backend {ℓ} (F W : Type ℓ) : Type ℓ where
  pub net : W
  pub table : List (Row F)

-- An error of a job.
pub data JobError {ℓ} (F B E : Type ℓ) : Type ℓ where
  from_bcv : RetryError (BcvError E) → JobError F B E
  from_binance : BinanceError F B E → JobError F B E
  unpublished : PublicationError → JobError F B E

module _ {ℓ} {F W : Type ℓ} where
  -- A call that leaves the table alone.
  abbrev pub on_net {κ} : {E : Type κ} {A : Type ℓ} → Action W E A → Action (Backend F W) E A
  on_net m b = let (r, net) = m b.net in (r, record b { net = net })

module _ {ℓ} {F W B E D S : Type ℓ} ⦃f : Float64 F⦄ (h : Http W B E) (g : Goquery F B E D S)
    (codec : Codec F B E) (now : W → Time × W) (takes_row : W → Bool × W) where
  -- `InsertRate` at the database.
  abbrev pub write_row : String → F → Time → Backend F W → Bool × Backend F W
  write_row c v t b =
      let (taken, net) = takes_row b.net in
      let (done, table) = Table.insert_rate taken c v t b.table in
      (done, record { net = net; table = table })

  abbrev pub backend : Outside F (Backend F W) (JobError F B E)
  backend = record {
    now = λ b. let (t, net) = now b.net in (t, record b { net = net });
    insert_rate = write_row;
    bcv_prices = on_net (wrap from_bcv (Bcv.get_prices h g new_bcv_provider));
    binance_prices = on_net (wrap from_binance (Binance.get_prices h codec new_binance_provider));
    rejected = unpublished;
  }
