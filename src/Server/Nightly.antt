-- ===== src/Server/Nightly.antt =====
-- The task "binance-consolidation" of cmd/server/main.go, on any world that the database keeps.
pub mod Averages
use Prim.Native.String.{String}
use ve_xchange_api.Prelude.{Bool, List, [], ◌∷◌}
use ve_xchange_api.GoTime.{Time}
use ve_xchange_api.Api.Currency
use ve_xchange_api.Worker.Task.{TaskJob}
use ve_xchange_api.Server.{time_of_day, consolidation_window}

-- `dbStore.ConsolidateDay`: whether there is no error, and the world afterwards.
abbrev pub ConsolidateDay {ℓ} : Type ℓ → Type ℓ
ConsolidateDay X = String → Time → Time → X → Bool × X

module _ {ℓ} {X : Type ℓ} (now : X → Time × X) (consolidate : ConsolidateDay X) where
  -- The loop over the currencies; an error is only logged.
  pub consolidate_each : List String → Time → Time → X → X
  consolidate_each [] from to x = x
  consolidate_each (ccy ∷ currencies) from to x =
      consolidate_each currencies from to (consolidate ccy from to x).1

  -- `Run`
  pub run_consolidation : X → X
  run_consolidation x =
      let (t, x') = now x in
      let (from, to) = consolidation_window t in
      consolidate_each (Currency.usdt ∷ Currency.usdt_compra ∷ Currency.usdt_venta ∷ []) from to x'

  abbrev pub consolidation_job : TaskJob X
  consolidation_job = record {
    name = "binance-consolidation";
    daily_at = time_of_day 1 0;
    run = run_consolidation;
  }
