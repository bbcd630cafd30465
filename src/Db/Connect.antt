-- ===== src/Db/Connect.antt =====
-- `New` and `RunMigrations` of internal/db/db.go. The packages pgxpool, database/sql and goose are
-- arguments, which act on a world `W`; `H` is the type of the handles that they give.
pub mod Handles
use Prim.Native.String.{String}
use ve_xchange_api.Prelude.Result.{ok, err}
use ve_xchange_api.Prelude.Action.{Action, ◌>>=◌, wrap}

pub record Drivers {ℓ} (W E H : Type ℓ) : Type ℓ where
  -- pgxpool.New, `pool.Ping` and `pool.Close`
  pub new_pool : String → Action W E H
  pub ping : H → Action W E (Unit {0})
  pub close_pool : H → W → W
  -- sql.Open(driver, connString) and `db.Close`
  pub open_db : (driver conn_string : String) → Action W E H
  pub close_db : H → W → W
  -- goose.SetBaseFS(migrationFiles), goose.SetDialect and goose.Up(db, dir)
  pub set_base_fs : W → W
  pub set_dialect : String → Action W E (Unit {0})
  pub up : H → String → Action W E (Unit {0})

pub data ConnectError {ℓ} (E : Type ℓ) : Type ℓ where
  no_pool no_ping no_db no_dialect not_migrated : E → ConnectError E

-- A deferred call, whose own error is ignored, runs after the body.
abbrev pub deferred {ℓ κ ι} :
    {W : Type ℓ} {E : Type κ} {A : Type ι} → (W → W) → Action W E A → Action W E A
deferred close body w = let (r, w') = body w in (r, close w')

module _ {ℓ} {W E H : Type ℓ} (d : Drivers W E H) where
  -- `New`, after pgxpool.New.
  abbrev pub check_pool : H → Action W (ConnectError E) H
  check_pool pool w =
      let (r, w') = d.ping pool w in
      elim r [ err e ↦ (err (no_ping e), d.close_pool pool w') | ok u ↦ (ok pool, w') ]

  -- `New`; the store is its pool.
  pub new_store : String → Action W (ConnectError E) H
  new_store conn_string = do pool ← wrap no_pool (d.new_pool conn_string); check_pool pool

  -- `RunMigrations`, after sql.Open.
  abbrev pub migrate : H → Action W (ConnectError E) (Unit {0})
  migrate db w =
      (do _ ← wrap no_dialect (d.set_dialect "postgres"); wrap not_migrated (d.up db "migrations"))
        (d.set_base_fs w)

  pub run_migrations : String → Action W (ConnectError E) (Unit {0})
  run_migrations conn_string = do
    db ← wrap no_db (d.open_db "pgx" conn_string)
    deferred (d.close_db db) (migrate db)
