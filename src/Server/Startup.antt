-- ===== src/Server/Startup.antt =====
-- The beginning of `main` in cmd/server/main.go, up to the jobs: the configuration, the database and
-- the warm-up, on a world `W`. `H` is the type of the handles of connections.
pub mod Leaks
use Prim.Native.String.{String}
use text.Mathlib.Text.{◌==◌}
use ve_xchange_api.Prelude.{Bool, not, if◌then◌else◌}
use ve_xchange_api.Prelude.Result.{ok, err}
use ve_xchange_api.Prelude.Float.{Float64}
use ve_xchange_api.State.{State, new_state}
use ve_xchange_api.Config.{Config, Env, load_config}
use ve_xchange_api.Db.Queries.{Pool, get_latest_rates}
use ve_xchange_api.Db.Connect.{Drivers, new_store, run_migrations}
use ve_xchange_api.Server.{warm_start}

-- What `main` goes on with.
pub record Ready {ℓ} (F H : Type ℓ) : Type ℓ where
  pub config : Config
  pub db_store : H
  pub app_state : State F

-- `exited` is os.Exit(1), which runs no deferred call.
pub data Outcome {ℓ} (F H : Type ℓ) : Type ℓ where
  exited : Outcome F H
  ready : Ready F H → Outcome F H

module _ {ℓ} {F W E H : Type ℓ} ⦃f : Float64 F⦄ (env : Env W E) (d : Drivers W E H)
    (query : H → W → Pool F × W) where
  -- From `db.New` on.
  abbrev pub open_store : Config → W → Outcome F H × W
  open_store cfg w =
      let (opened, w1) = new_store d cfg.database_url w in
      elim opened [
        | err e ↦ (exited, w1)
        | ok store ↦
            let (answers, w2) = query store w1 in
            (
              ready (record {
                config = cfg;
                db_store = store;
                app_state = warm_start new_state (get_latest_rates answers);
              }),
              w2,
            )
      ]

  abbrev pub migrate_and_open : Config → W → Outcome F H × W
  migrate_and_open cfg w =
      let (migrated, w1) = run_migrations d cfg.database_url w in
      elim migrated [ err e ↦ (exited, w1) | ok u ↦ open_store cfg w1 ]

  pub start : W → Outcome F H × W
  start w =
      let (loaded, w1) = load_config env w in
      elim loaded [
        | err e ↦ (exited, w1)
        | ok cfg ↦ if not (cfg.database_url == "") then migrate_and_open cfg w1 else (exited, w1)
      ]
