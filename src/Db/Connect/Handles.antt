-- ===== src/Db/Connect/Handles.antt =====
-- The handles that `New` and `RunMigrations` leave open.
use Prim.Native.String.{String}
use ve_xchange_api.Prelude.{◌≡◌, Bool, true, false, ◌⊎◌, inl, inr, arith}
use ve_xchange_api.Prelude.Result.{ok, Result-cases}
use ve_xchange_api.Prelude.Action.{Action}
use ve_xchange_api.Db.Connect.{Drivers, new_store, migrate, run_migrations}

module _ {ℓ} {W E H : Type ℓ} where
  -- A call that opens and closes nothing.
  abbrev pub Steady {κ} : {A : Type κ} → (H → W → Bool) → Action W E A → Type ℓ
  Steady is_open m = (q : H) (w : W) → is_open q (m w).1 ≡ is_open q w

  -- What the packages do to the handles that are open: one call opens the handle that it gives, and
  -- closing one closes it.
  pub record Handles (d : Drivers W E H) : Type ℓ where
    pub is_open : H → W → Bool
    pub new_opens :
        (c : String) (w : W) (p : H)
        → (d.new_pool c w).0 ≡ ok p
        → is_open p (d.new_pool c w).1 ≡ true
    pub new_only :
        (c : String) (w : W) (q : H)
        → is_open q (d.new_pool c w).1 ≡ true
        → (is_open q w ≡ true) ⊎ ((d.new_pool c w).0 ≡ ok q)
    pub open_only :
        (n c : String) (w : W) (q : H)
        → is_open q (d.open_db n c w).1 ≡ true
        → (is_open q w ≡ true) ⊎ ((d.open_db n c w).0 ≡ ok q)
    pub closed_pool : (p : H) (w : W) → is_open p (d.close_pool p w) ≡ false
    pub close_pool_only :
        (p q : H) (w : W) → is_open q (d.close_pool p w) ≡ true → is_open q w ≡ true
    pub closed_db : (p : H) (w : W) → is_open p (d.close_db p w) ≡ false
    pub close_db_only : (p q : H) (w : W) → is_open q (d.close_db p w) ≡ true → is_open q w ≡ true
    pub ping_steady : (p : H) → Steady is_open (d.ping p)
    pub base_steady : (q : H) (w : W) → is_open q (d.set_base_fs w) ≡ is_open q w
    pub dialect_steady : (s : String) → Steady is_open (d.set_dialect s)
    pub up_steady : (p : H) (s : String) → Steady is_open (d.up p s)

module _ {ℓ} {W E H : Type ℓ} (d : Drivers W E H) (o : Handles d) where
  migrate-Steady : (db q : H) (w : W) → o.is_open q (migrate d db w).1 ≡ o.is_open q w
  migrate-Steady db q w = grind (arith, o.base_steady, o.dialect_steady, o.up_steady)

  -- Whether it succeeds or not, `RunMigrations` leaves no handle open that was not.
  pub run_migrations-closes :
      (c : String) (w : W) (q : H)
      → o.is_open q (run_migrations d c w).1 ≡ true
      → o.is_open q w ≡ true
  unfolding run_migrations
  run_migrations-closes c w q h = elim (Result-cases (d.open_db "pgx" c w).0) [
    | inr (x, failed) ↦ ground (arith, o.open_only "pgx" c w q)
    | inl (db, opened) ↦
        let w1 = (d.open_db "pgx" c w).1 in
        let w2 = (migrate d db w1).1 in
        ground (
          arith,
          o.open_only "pgx" c w q,
          o.close_db_only db q w2,
          o.closed_db db w2,
          migrate-Steady db q w1,
        )
  ]

  pub new_store-closes :
      (c : String) (w : W) (q : H)
      → o.is_open q (new_store d c w).1 ≡ true
      → (o.is_open q w ≡ true) ⊎ ((new_store d c w).0 ≡ ok q)
  unfolding new_store
  new_store-closes c w q h = elim (Result-cases (d.new_pool c w).0) [
    | inr (x, failed) ↦ ground (arith, o.new_only c w q)
    | inl (pool, opened) ↦
        let w1 = (d.new_pool c w).1 in
        let w2 = (d.ping pool w1).1 in
        ground (
          arith,
          o.new_only c w q,
          o.close_pool_only pool q w2,
          o.closed_pool pool w2,
          o.ping_steady pool q w1,
        )
  ]

  pub new_store-opens :
      (c : String) (w : W) (p : H)
      → (new_store d c w).0 ≡ ok p
      → o.is_open p (new_store d c w).1 ≡ true
  unfolding new_store
  new_store-opens c w p h = elim (Result-cases (d.new_pool c w).0) [
    | inr (x, failed) ↦ absurd (ground arith)
    | inl (pool, opened) ↦
        let w1 = (d.new_pool c w).1 in ground (arith, o.new_opens c w p, o.ping_steady pool p w1)
  ]
