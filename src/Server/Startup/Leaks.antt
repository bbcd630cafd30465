-- ===== src/Server/Startup/Leaks.antt =====
-- What holds when the program starts to work.
use text.Mathlib.Text.{◌==◌}
use text.Mathlib.TextEquality.{eq_iff}
use ve_xchange_api.Prelude.{◌≡◌, ◌≢◌, ◌∙◌, sym, ap, true, ◌⊎◌, inl, inr, arith, Bool-cases}
use ve_xchange_api.Prelude.Result.{ok, Result-cases}
use ve_xchange_api.Prelude.Float.{Float64}
use ve_xchange_api.State.{new_state}
use ve_xchange_api.Config.{Config, Env, load_config}
use ve_xchange_api.Db.Queries.{Pool, get_latest_rates}
use ve_xchange_api.Db.Connect.{Drivers, new_store, run_migrations}
use ve_xchange_api.Db.Connect.Handles.{
  Handles, run_migrations-closes, new_store-closes, new_store-opens,
}
use ve_xchange_api.Server.{warm_start}
use ve_xchange_api.Server.Startup.{Ready, Outcome, ready, open_store, migrate_and_open, start}

module _ {ℓ} {F W E H : Type ℓ} ⦃f : Float64 F⦄ (env : Env W E) (d : Drivers W E H)
    (query : H → W → Pool F × W) (o : Handles d) where
  -- Neither the environment nor a query opens or closes a handle.
  pub record IsQuiet : Type ℓ where
    pub load_steady : (q : H) (w : W) → o.is_open q (env.load w).1 ≡ o.is_open q w
    pub query_steady : (p q : H) (w : W) → o.is_open q (query p w).1 ≡ o.is_open q w

  -- A handle that is open at the end was open before or is the store of the outcome.
  Leaves : W → Outcome F H × W → Type ℓ
  Leaves w (out, w') =
      (q : H)
      → o.is_open q w' ≡ true
      → (o.is_open q w ≡ true) ⊎ ((r : Ready F H) × (out ≡ ready r) × (r.db_store ≡ q))

  -- What an outcome that goes on has found.
  pub record Works (r : Ready F H) (w' : W) : Type ℓ where
    pub asked : W
    pub state_warm :
        r.app_state ≡ warm_start new_state (get_latest_rates (query r.db_store asked).0)
    pub store_open : o.is_open r.db_store w' ≡ true

  open_store-Leaves : IsQuiet → (cfg : Config) (w : W) → Leaves w (open_store env d query cfg w)
  unfolding Leaves
  open_store-Leaves quiet cfg w q h = elim (Result-cases (new_store d cfg.database_url w).0) [
    | inr (x, failed) ↦ ground (arith, new_store-closes d o cfg.database_url w q)
    | inl (store, opened) ↦
        let w1 = (new_store d cfg.database_url w).1 in
        elim (new_store-closes d o cfg.database_url w q
          (ground (arith, quiet.query_steady store q w1))) [
            | inl before ↦ inl before
            | inr here ↦
                let r : Ready F H = record {
                  config = cfg;
                  db_store = store;
                  app_state = warm_start new_state (get_latest_rates (query store w1).0);
                } in
                inr (r, ground arith, ground arith)
          ]
  ]

  open_store-Works :
      IsQuiet
      → (cfg : Config) (w : W) (r : Ready F H) → (open_store env d query cfg w).0 ≡ ready r
      → (r.config ≡ cfg) × Works r (open_store env d query cfg w).1
  open_store-Works quiet cfg w r e = elim (Result-cases (new_store d cfg.database_url w).0) [
    | inr (x, failed) ↦ absurd (ground arith)
    | inl (store, opened) ↦
        let w1 = (new_store d cfg.database_url w).1 in
        let own : r.db_store ≡ store = ground arith in
        (
          ground arith,
          record {
            asked = w1;
            state_warm = ground arith;
            store_open = ground (
              arith,
              quiet.query_steady store store w1,
              new_store-opens d o cfg.database_url w store,
            );
          },
        )
  ]

  migrate_and_open-Leaves :
      IsQuiet → (cfg : Config) (w : W) → Leaves w (migrate_and_open env d query cfg w)
  unfolding Leaves
  migrate_and_open-Leaves quiet cfg w q h =
      let w1 = (run_migrations d cfg.database_url w).1 in
      elim (Result-cases (run_migrations d cfg.database_url w).0) [
        | inr (x, failed) ↦ inl (run_migrations-closes d o cfg.database_url w q (ground arith))
        | inl (u, migrated) ↦ elim (open_store-Leaves quiet cfg w1 q (ground arith)) [
          | inl before ↦ inl (run_migrations-closes d o cfg.database_url w q before)
          | inr (r, gone_on, own) ↦ inr (r, ground arith, own)
        ]
      ]

  load_config-steady : IsQuiet → (q : H) (w : W) → o.is_open q (load_config env w).1 ≡ o.is_open q w
  unfolding load_config
  load_config-steady quiet q w = ground (arith, quiet.load_steady q w)

  start-Leaves : IsQuiet → (w : W) → Leaves w (start env d query w)
  unfolding start Leaves
  start-Leaves quiet w q h =
      let w1 = (load_config env w).1 in
      let same = load_config-steady quiet q w in
      elim (Result-cases (load_config env w).0) [
        | inr (x, failed) ↦ inl (ground arith)
        | inl (cfg, loaded) ↦ elim (Bool-cases (cfg.database_url == "")) [
          | inl unset ↦ inl (ground arith)
          | inr given ↦ elim (migrate_and_open-Leaves quiet cfg w1 q (ground arith)) [
            | inl before ↦ inl (sym same ∙ before)
            | inr (r, gone_on, own) ↦ inr (r, ground arith, own)
          ]
        ]
      ]

  -- What goes on has come to `db.New`.
  start-open_store :
      (w : W) (r : Ready F H)
      → (start env d query w).0 ≡ ready r
      → (cfg : Config) × (w' : W) × ((load_config env w).0 ≡ ok cfg)
        × (cfg.database_url ≢ "")
        × (start env d query w ≡ open_store env d query cfg w')
  unfolding start
  start-open_store w r e =
      let w1 = (load_config env w).1 in
      elim (Result-cases (load_config env w).0) [
        | inr (x, failed) ↦ absurd (ground arith)
        | inl (cfg, loaded) ↦ elim (Bool-cases (cfg.database_url == "")) [
          | inl unset ↦ absurd (ground arith)
          | inr given ↦ elim (Result-cases (run_migrations d cfg.database_url w1).0) [
            | inr (x, failed) ↦ absurd (ground arith)
            | inl (u, migrated) ↦ (
              cfg,
              (run_migrations d cfg.database_url w1).1,
              loaded,
              (λ empty. ground (arith, eq_iff cfg.database_url "")),
              ground arith,
            )
          ]
        ]
      ]

  -- The start of the program, where the drivers open and close handles as they say and the rest opens
  -- and closes none. A handle that is open afterwards was open before or is the store that the program
  -- goes on with: where it exits, no connection of its own is left open. Where it goes on, the
  -- configuration was loaded and has a DATABASE_URL, the store is open, and the state is the new one
  -- warmed up with what the store answered.
  pub start_lem :
      IsQuiet
      → (w : W)
      → ((q : H)
          → o.is_open q (start env d query w).1 ≡ true
          → (o.is_open q w ≡ true)
            ⊎ ((r : Ready F H) × ((start env d query w).0 ≡ ready r) × (r.db_store ≡ q)))
        × ((r : Ready F H)
            → (start env d query w).0 ≡ ready r
            → ((load_config env w).0 ≡ ok r.config)
              × (r.config.database_url ≢ "")
              × Works r (start env d query w).1)
  unfolding Leaves
  start_lem quiet w = (
    start-Leaves quiet w,
    λ r e.
        let (cfg, w', loaded, given, ends) = start-open_store w r e in
        let (same, works) =
          open_store-Works quiet cfg w' r (sym (ap (λ (x : Outcome F H × W). x.0) ends) ∙ e) in
        (rw same loaded, rw same given, rw ends works),
  )
