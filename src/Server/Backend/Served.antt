-- ===== src/Server/Backend/Served.antt =====
-- What the HTTP interface answers after BCV's rates were applied.
use mathlib.Core.List.{Memᴰ, append_assoc, append-nil}
use text.Mathlib.TextEquality.{eq_iff}
use ve_xchange_api.Prelude.{
  ◌<◌, ◌≡◌, ◌≢◌, refl, ◌∙◌, sym, ap, Bool, true, false, List, [], ◌∷◌, ◌++◌, ◌⊎◌, inl, inr, arith,
  Bool-cases,
}
use ve_xchange_api.Prelude.Dict.{lookup}
use ve_xchange_api.Prelude.Float.{Float64}
use ve_xchange_api.GoTime.{Time}
use ve_xchange_api.State.{update_bcv_price}
use ve_xchange_api.State.Effects.{Rate, bcv, usd_bcv, eur_bcv, comes_from, rate_of}
use ve_xchange_api.Api.Currency
use ve_xchange_api.Api.Currency.{Currency}
use ve_xchange_api.Api.Types.{RateEntry}
use ve_xchange_api.Db.Table.{Row, insert_rate}
use ve_xchange_api.Db.Queries.{Pool, db_store}
use ve_xchange_api.Db.Queries.Served.{
  IsLatest, Newest, scans_of, all_read, get_rates_currency-Newest,
}
use ve_xchange_api.Handler.{
  new_server_with_store, status_ok, rate_entry, write_json, get_rates_currency,
}
use ve_xchange_api.Handler.Agreement.{valid_iff}
use ve_xchange_api.Handler.Staleness.{name_of}
use ve_xchange_api.Provider.Http.{Http}
use ve_xchange_api.Provider.Binance.{Codec}
use ve_xchange_api.Provider.Bcv.Page.{Goquery, bcv_response}
use ve_xchange_api.Server.{World, apply_bcv}
use ve_xchange_api.Server.Backend.{Backend, backend}
use ve_xchange_api.Server.Backend.Added.{rows_if, Newest-first, Newest-second}
use ve_xchange_api.Server.Backend.Fetched.{raw_row}

two_names : Currency.usd_bcv ≢ Currency.eur_bcv
two_names e = ground (arith, (eq_iff Currency.usd_bcv Currency.eur_bcv).1 e)

-- What the value of a newest row is.
from_row {ℓ} :
    {F : Type ℓ} {table after : List (Row F)} {c : Currency} {v : F} {x : Row F} {b : Bool}
    (n : Newest after c)
    → v ≡ n.row.value
    → ((b ≡ true) × (n.row ≡ x)) ⊎ ((b ≡ false) × ((m : Newest table c) × (m.row ≡ n.row)))
    → ((b ≡ true) × (v ≡ x.value)) ⊎ ((b ≡ false) × ((m : Newest table c) × (v ≡ m.row.value)))
from_row n value (inl (written, e)) = inl (written, value ∙ ap (λ (y : Row _). y.value) e)
from_row n value (inr (failed, (m, e))) =
    inr (failed, (m, value ∙ ap (λ (y : Row _). y.value) (sym e)))

module _ {ℓ} {F W B E D S : Type ℓ} ⦃f : Float64 F⦄ (h : Http W B E) (g : Goquery F B E D S)
    (codec : Codec F B E) (now : W → Time × W) (takes_row : W → Bool × W) (usd eur : F)
    (effective : Time) (w : World F (Backend F W)) (stored : w.has_store ≡ true) where
  -- Whether the database takes the row of a rate of BCV, of which the dollar's comes first.
  abbrev pub is_written : Rate → Bool
  is_written usd_bcv = (takes_row (now (now w.outside.net).1).1).0
  is_written eur_bcv = (takes_row (takes_row (now (now w.outside.net).1).1).1).0
  is_written _ = false

  -- The table after `Apply`, whichever rows the database takes.
  pub table-apply_bcv_if :
      let u = (now (now w.outside.net).1).0 in
      (apply_bcv (backend h g codec now takes_row) (bcv_response usd eur effective) w).outside.table
      ≡ w.outside.table
        ++ rows_if
            (is_written usd_bcv)
            (raw_row Currency.usd_bcv usd u)
            (is_written eur_bcv)
            (raw_row Currency.eur_bcv eur u)
  unfolding apply_bcv insert_rate lookup
  table-apply_bcv_if =
      let u = (now (now w.outside.net).1).0 in
      let x = raw_row Currency.usd_bcv usd u in
      let x' = raw_row Currency.eur_bcv eur u in
      elim (Bool-cases (is_written usd_bcv)) [
        | inl first ↦ elim (Bool-cases (is_written eur_bcv)) [
          | inl second ↦ ground (arith, append_assoc w.outside.table (x ∷ []) (x' ∷ []))
          | inr second ↦ ground arith
        ]
        | inr first ↦ elim (Bool-cases (is_written eur_bcv)) [
          | inl second ↦ ground arith
          | inr second ↦ ground (arith, append-nil w.outside.table)
        ]
      ]

  module _ (pool : Pool F) (rows : List (Row F)) where
    -- After BCV's rates were applied, where each row of the table was from before the second time that
    -- `Apply` reads from the clock, and the query for the latest rates succeeds and keeps what SELECT
    -- DISTINCT ON promises: /rates/{currency} answers 200 for a rate of BCV that the table has a row of,
    -- whatever time it is. If the database took the rate's new row, the value is that of the state. If it
    -- did not, which the code only logs, it is that of a newest row of the currency from before.
    pub get_rates_currency-apply_bcv :
        let w' = apply_bcv (backend h g codec now takes_row) (bcv_response usd eur effective) w in
        pool.query_latest ≡ all_read (scans_of rows)
        → IsLatest w'.outside.table rows
        → ((old : Row F)
            → Memᴰ old w.outside.table
            → old.recorded_at.ns < (now (now w.outside.net).1).0.ns)
        → (r : Rate) → comes_from r bcv ≡ true
        → (some_row : Row F) → Memᴰ some_row w'.outside.table
        → some_row.currency ≡ name_of r
        → (asked : Time)
        → (e : RateEntry F) × (get_rates_currency
              (new_server_with_store w'.app_state (db_store pool))
              asked
              (name_of r)
            ≡ write_json status_ok (rate_entry e))
          × (((is_written r ≡ true) × (e.value ≡ (rate_of r w'.app_state).value))
              ⊎ ((is_written r ≡ false)
                  × ((n : Newest w.outside.table (name_of r)) × (e.value ≡ n.row.value))))
    unfolding apply_bcv update_bcv_price lookup
    get_rates_currency-apply_bcv read latest older usd_bcv own some_row among same asked =
        let u = (now (now w.outside.net).1).0 in
        let x = raw_row Currency.usd_bcv usd u in
        let x' = raw_row Currency.eur_bcv eur u in
        let (n, e, answered, value, time) =
          get_rates_currency-Newest pool
            (w.outside.table ++ rows_if (is_written usd_bcv) x (is_written eur_bcv) x') rows
            Currency.usd_bcv some_row _ asked ((valid_iff _).1 (usd_bcv, refl)) read
            (rw table-apply_bcv_if at latest) (rw table-apply_bcv_if at among) same in
        (
          e,
          answered,
          from_row {v = e.value} n value (
              Newest-first w.outside.table (is_written usd_bcv) (is_written eur_bcv) x x' two_names
                older n),
        )
    get_rates_currency-apply_bcv read latest older eur_bcv own some_row among same asked =
        let u = (now (now w.outside.net).1).0 in
        let x = raw_row Currency.usd_bcv usd u in
        let x' = raw_row Currency.eur_bcv eur u in
        let (n, e, answered, value, time) =
          get_rates_currency-Newest pool
            (w.outside.table ++ rows_if (is_written usd_bcv) x (is_written eur_bcv) x') rows
            Currency.eur_bcv some_row _ asked ((valid_iff _).1 (eur_bcv, refl)) read
            (rw table-apply_bcv_if at latest) (rw table-apply_bcv_if at among) same in
        (
          e,
          answered,
          from_row {v = e.value} n value (
              Newest-second w.outside.table (is_written usd_bcv) (is_written eur_bcv) x x' two_names
                older n),
        )
    get_rates_currency-apply_bcv read latest older r own some_row among same asked =
        absurd (ground arith)
