-- ===== src/Examples/Startup.antt =====
-- The start of the program in a world with two handles, one of the migrations and one of the store.
use Prim.Native.String.{String}
use text.Mathlib.Text.{◌==◌}
use ve_xchange_api.Prelude.{
  ℕ, ◌≡◌, ◌≢◌, ◌⊎◌, ◌↔◌, refl, sym, ap, inl, inr, Bool, true, false, [], arith, if◌then◌else◌,
}
use ve_xchange_api.Prelude.Result.{ok, err, ok-injective}
use ve_xchange_api.Provider.EffectiveDate.{codes}
use ve_xchange_api.Config.{Config, Env, load_config}
use ve_xchange_api.Config.Port.{IsPort, load_config_lem}
use ve_xchange_api.Db.Queries.{Pool}
use ve_xchange_api.Db.Queries.Served.{all_read}
use ve_xchange_api.Db.Connect.{Drivers}
use ve_xchange_api.Db.Connect.Handles.{Handles}
use ve_xchange_api.Server.Startup.{Ready, ready, start}
use ve_xchange_api.Server.Startup.Leaks.{IsQuiet, Works, start_lem}
use ve_xchange_api.Examples.Toys.{nat_float}

-- Which handles are open.
record Connections : Type 0 where
  migrations_open : Bool
  store_open : Bool

data Handle : Type 0 where
  migrations store : Handle

abbrev open_in : Handle → Connections → Bool
open_in migrations w = w.migrations_open
open_in store w = w.store_open

abbrev set_open : Handle → Bool → Connections → Connections
set_open migrations b w = record w { migrations_open = b }
set_open store b w = record w { store_open = b }

abbrev toy_drivers : Drivers Connections String Handle
toy_drivers = record {
  new_pool = λ c w. (ok store, set_open store true w);
  ping = λ p w. (ok tt, w);
  close_pool = λ p w. set_open p false w;
  open_db = λ driver c w. (ok migrations, set_open migrations true w);
  close_db = λ p w. set_open p false w;
  set_base_fs = λ w. w;
  set_dialect = λ s w. (ok tt, w);
  up = λ p s w. (ok tt, w);
}

opened :
    (p q : Handle) (w : Connections)
    → open_in q (set_open p true w) ≡ true
    → (open_in q w ≡ true) ⊎ (p ≡ q)
opened migrations migrations w h = inr refl
opened migrations store w h = inl h
opened store migrations w h = inl h
opened store store w h = inr refl

shut : (p : Handle) (w : Connections) → open_in p (set_open p false w) ≡ false
shut migrations w = refl
shut store w = refl

kept : (p q : Handle) (w : Connections) → open_in q (set_open p false w) ≡ true → open_in q w ≡ true
kept migrations migrations w h = absurd (ground arith)
kept migrations store w h = h
kept store migrations w h = h
kept store store w h = absurd (ground arith)

new_store_open :
    (p : Handle) (w : Connections) → store ≡ p → open_in p (set_open store true w) ≡ true
new_store_open p w own = rw (sym own) refl

abbrev toy_handles : Handles toy_drivers
toy_handles = record {
  is_open = open_in;
  new_opens = λ c w p e. new_store_open p w (ok-injective e);
  new_only =
      λ c w q h. elim (opened store q w h) [ inl before ↦ inl before | inr own ↦ inr (ap ok own) ];
  open_only = λ n c w q h. elim (opened migrations q w h) [
    | inl before ↦ inl before
    | inr own ↦ inr (ap ok own)
  ];
  closed_pool = shut;
  close_pool_only = kept;
  closed_db = shut;
  close_db_only = kept;
  ping_steady = λ p q w. refl;
  base_steady = λ q w. refl;
  dialect_steady = λ s q w. refl;
  up_steady = λ p s q w. refl;
}

-- There is no file; the port is 3000.
abbrev toy_env : Env Connections String
toy_env = record {
  load = λ w. (err "no such file", w);
  is_not_exist = λ e. true;
  getenv = λ name w. if name == "APP_PORT" then "3000" else "postgres://localhost/rates";
}

abbrev all_shut : Connections
all_shut = record { migrations_open = false; store_open = false }

abbrev ask_nothing : Handle → Connections → Pool ℕ × Connections
ask_nothing p w =
    (record { query_latest = all_read []; query_history = λ c from to. all_read [] }, w)

toy-IsQuiet : IsQuiet toy_env toy_drivers ask_nothing toy_handles
toy-IsQuiet = record { load_steady = λ q w. refl; query_steady = λ p q w. refl }

load_config_example :
    ((cfg : Config)
      → (load_config toy_env all_shut).0 ≡ ok cfg
      → IsPort (codes "3000") cfg.app_port × (cfg.database_url ≡ "postgres://localhost/rates"))
    × ((e : String)
        → ((load_config toy_env all_shut).0 ≡ err e)
          ↔ (((toy_env.load all_shut).0 ≡ err e) × (true ≡ false)))
load_config_example = load_config_lem toy_env all_shut

start_example :
    ((q : Handle)
      → open_in q (start toy_env toy_drivers ask_nothing all_shut).1 ≡ true
      → (open_in q all_shut ≡ true)
        ⊎ ((r : Ready ℕ Handle) × ((start toy_env toy_drivers ask_nothing all_shut).0 ≡ ready r)
            × (r.db_store ≡ q)))
    × ((r : Ready ℕ Handle)
        → (start toy_env toy_drivers ask_nothing all_shut).0 ≡ ready r
        → ((load_config toy_env all_shut).0 ≡ ok r.config)
          × (r.config.database_url ≢ "")
          × Works toy_env toy_drivers ask_nothing toy_handles r
              (start toy_env toy_drivers ask_nothing all_shut).1)
start_example = start_lem toy_env toy_drivers ask_nothing toy_handles toy-IsQuiet all_shut
