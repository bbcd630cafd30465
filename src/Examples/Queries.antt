-- ===== src/Examples/Queries.antt =====
-- The queries on a table with two rows of the dollar, and on the table of three rows.
use mathlib.Core.List.{Memᴰ, Permᴰ}
use ve_xchange_api.Prelude.{
  ℕ, ◌≤◌, ◌≡◌, ◌≢◌, ◌⊎◌, refl, true, false, none, some, List, [], ◌∷◌, arith,
}
use ve_xchange_api.Api.Types.{RateEntry}
use ve_xchange_api.Handler.{
  new_server_with_store, status_ok, rate_entry, write_json, get_rates_currency,
}
use ve_xchange_api.Api.Currency.{valid}
use ve_xchange_api.Db.Table.{Row, is_raw, select, values, consolidate_day}
use ve_xchange_api.Db.Queries.{Pool, db_store, get_history}
use ve_xchange_api.Db.Queries.Served.{
  IsLatest, Newest, scans_of, all_read, get_rates_currency-Newest,
}
use ve_xchange_api.Db.Queries.History.{history_scans, history_of, get_history-consolidate_day}
use ve_xchange_api.Examples.Toys.{nat_float, no_rates, friday_evening}
use ve_xchange_api.Examples.Tables.{at, three_rows, mean_of_two, all_succeed}

abbrev dollar : ℕ → ℕ → Row ℕ
dollar v t = record { currency = "usd_bcv"; value = v; recorded_at = at t; is_average = false }

abbrev older : Row ℕ
older = dollar 36 100

abbrev newer : Row ℕ
newer = dollar 37 200

abbrev dollars : List (Row ℕ)
dollars = older ∷ newer ∷ []

dollars-IsLatest : IsLatest dollars (newer ∷ [])
dollars-IsLatest = record { sound = λ row i. Memᴰ.tail i; complete = found; newest = latest }
  where
    found :
        (row : Row ℕ)
        → Memᴰ row dollars
        → (r : Row ℕ) × Memᴰ r (newer ∷ []) × (r.currency ≡ row.currency)
    found row (Memᴰ.head e) = (newer, Memᴰ.head refl, rw e refl)
    found row (Memᴰ.tail (Memᴰ.head e)) = (newer, Memᴰ.head refl, rw e refl)
    found row (Memᴰ.tail (Memᴰ.tail i)) = elim i [ ]

    latest :
        (row other : Row ℕ)
        → Memᴰ row (newer ∷ [])
        → Memᴰ other dollars
        → other.currency ≡ row.currency
        → other.recorded_at.ns ≤ row.recorded_at.ns
    latest row other (Memᴰ.head e) (Memᴰ.head e') same = rw (e, e') (omega arith)
    latest row other (Memᴰ.head e) (Memᴰ.tail (Memᴰ.head e')) same = rw (e, e') (omega arith)
    latest row other (Memᴰ.head e) (Memᴰ.tail (Memᴰ.tail i)) same = elim i [ ]
    latest row other (Memᴰ.tail i) j same = elim i [ ]

abbrev pool_of_dollars : Pool ℕ
pool_of_dollars = record {
  query_latest = all_read (scans_of (newer ∷ []));
  query_history = λ c from to. none;
}

newest_example :
    (n : Newest dollars "usd_bcv") × (e : RateEntry ℕ) × (get_rates_currency
        (new_server_with_store no_rates (db_store pool_of_dollars))
        friday_evening
        "usd_bcv"
      ≡ write_json status_ok (rate_entry e))
    × (e.value ≡ n.row.value)
    × (e.last_updated ≡ some n.row.recorded_at)
unfolding valid
newest_example =
    get_rates_currency-Newest pool_of_dollars dollars (newer ∷ []) "usd_bcv" older no_rates
      friday_evening refl refl dollars-IsLatest (Memᴰ.head refl) refl

abbrev average_of_day : Row ℕ
average_of_day = record { currency = "usdt"; value = 42; recorded_at = at 100; is_average = true }

abbrev pool_of_day : Pool ℕ
pool_of_day = record {
  query_latest = none;
  query_history = λ c from to. all_read (history_scans (average_of_day ∷ []));
}

day_history_example :
    ((values (select (is_raw "usdt" (at 100) (at 200)) three_rows) ≡ [])
      × ((consolidate_day mean_of_two all_succeed "usdt" (at 100) (at 200) three_rows).1
          ≡ three_rows)
      × (get_history pool_of_day "usdt" (at 100) (at 200)
          ≡ some (history_of (average_of_day ∷ []))))
    ⊎ ((values (select (is_raw "usdt" (at 100) (at 200)) three_rows) ≢ [])
        × (get_history pool_of_day "usdt" (at 100) (at 200)
            ≡ some (record { value = 42; recorded_at = at 100; is_average = true } ∷ [])))
unfolding consolidate_day select values
day_history_example =
    get_history-consolidate_day mean_of_two all_succeed "usdt" (at 100) (at 200) three_rows
      (average_of_day ∷ []) pool_of_day (omega arith) refl refl (Permᴰ.cons refl Permᴰ.nil)
