-- ===== src/Db/Queries/Served.antt =====
-- What the HTTP interface serves of the table prices_history.
use Prim.Native.String.{String}
use text.Mathlib.Text.{◌==◌}
use text.Mathlib.TextEquality.{eq_iff}
use mathlib.Core.List.{Memᴰ}
use ve_xchange_api.Prelude.{
  ◌≤◌, ◌≡◌, refl, ◌∙◌, sym, true, false, ◌⊎◌, inl, inr, Bool-cases, Option, some, List, [], ◌∷◌,
  arith, if◌then◌else◌,
}
use ve_xchange_api.Prelude.Dict.{Dict, lookup, insert, lookup-insert}
use ve_xchange_api.Prelude.Float.{Float64}
use ve_xchange_api.GoTime.{Time}
use ve_xchange_api.Db as Db
use ve_xchange_api.Db.Table.{Row}
use ve_xchange_api.Db.Queries.{Rows, Pool, collect_latest, get_latest_rates, db_store}
use ve_xchange_api.State.{State, get_rates}
use ve_xchange_api.Api.Currency
use ve_xchange_api.Api.Currency.{Currency}
use ve_xchange_api.Api.Types.{RateEntry}
use ve_xchange_api.State.Effects.{Rate, usd_bcv}
use ve_xchange_api.Handler.Agreement.{valid_iff}
use ve_xchange_api.Handler.Staleness.{name_of}
use ve_xchange_api.Handler.{
  new_server_with_store, status_ok, rate_entry, write_json, get_rates_currency, switch_entry,
  to_stored_rate_entry,
}

-- The rows of a query, each scanned, without an error.
abbrev pub all_read {κ} : {T : Type κ} → List (Option T) → Option (Rows T)
all_read scans = some (record { scans = scans; has_err = false })

module _ {ℓ} {F : Type ℓ} where
  -- What SELECT DISTINCT ON (currency) … ORDER BY currency, recorded_at DESC promises of the rows that
  -- it returns from a table: they are rows of the table, one of each currency that is there, none older
  -- than another row of its currency.
  pub record IsLatest (table rows : List (Row F)) : Type ℓ where
    pub sound : (row : Row F) → Memᴰ row rows → Memᴰ row table
    pub complete :
        (row : Row F)
        → Memᴰ row table
        → (found : Row F) × Memᴰ found rows × (found.currency ≡ row.currency)
    pub newest :
        (row other : Row F)
        → Memᴰ row rows
        → Memᴰ other table
        → other.currency ≡ row.currency
        → other.recorded_at.ns ≤ row.recorded_at.ns

  abbrev pub scans_of : List (Row F) → List (Option (String × F × Time))
  scans_of [] = []
  scans_of (row ∷ rows) = some (row.currency, row.value, row.recorded_at) ∷ scans_of rows

  abbrev pub entry_of : Row F → Db.HistoryEntry F
  entry_of row = record { value = row.value; recorded_at = row.recorded_at; is_average = false }

  -- The entry of the last row of a currency.
  last_entry : String → List (Row F) → Option (Db.HistoryEntry F) → Option (Db.HistoryEntry F)
  last_entry c [] before = before
  last_entry c (row ∷ rows) before =
      last_entry c rows (if row.currency == c then some (entry_of row) else before)

  lookup-collect_latest :
      (c : String) (rows : List (Row F)) (result : Dict (Db.HistoryEntry F))
      → (m : Dict (Db.HistoryEntry F)) × (collect_latest (scans_of rows) result ≡ some m)
        × (lookup c m ≡ last_entry c rows (lookup c result))
  unfolding collect_latest last_entry
  lookup-collect_latest c [] result = (result, refl, refl)
  lookup-collect_latest c (row ∷ rows) result =
      let (m, found, there) =
        lookup-collect_latest c rows (insert row.currency (entry_of row) result) in
      (m, found, there ∙ rw (lookup-insert row.currency c (entry_of row) result) refl)

  -- A row of a currency, and its entry is the last.
  record Ends (c : String) (rows : List (Row F)) (row : Row F) : Type ℓ where
    among : Memᴰ row rows
    own : row.currency ≡ c
    last : (before : Option (Db.HistoryEntry F)) → last_entry c rows before ≡ some (entry_of row)

  first_of :
      (c : String) (x : Row F) {xs : List (Row F)}
      → ((before : Option (Db.HistoryEntry F)) → last_entry c xs before ≡ before)
      → x.currency ≡ c
      → Ends c (x ∷ xs) x
  unfolding last_entry
  first_of c x none_later own = record {
    among = Memᴰ.head refl;
    own = own;
    last = λ before. none_later _ ∙ rw ((eq_iff x.currency c).1 own) refl;
  }

  later_on : (c : String) (x row : Row F) {xs : List (Row F)} → Ends c xs row → Ends c (x ∷ xs) row
  unfolding last_entry
  later_on c x row i = record { among = Memᴰ.tail i.among; own = i.own; last = λ before. i.last _ }

  last_entry-cases :
      (c : String) (rows : List (Row F))
      → ((row : Row F) × Ends c rows row)
        ⊎ ((before : Option (Db.HistoryEntry F)) → last_entry c rows before ≡ before)
  unfolding last_entry
  last_entry-cases c [] = inr (λ before. refl)
  last_entry-cases c (row ∷ rows) = elim (last_entry-cases c rows) [
    | inl (found, later) ↦ inl (found, later_on c row found later)
    | inr none_later ↦ elim (Bool-cases (row.currency == c)) [
      | inl own ↦ inl (row, first_of c row none_later ((eq_iff row.currency c).0 own))
      | inr other ↦ inr (λ before. none_later _ ∙ rw other refl)
    ]
  ]

  last_entry-Ends :
      (c : String) {row : Row F} {rows : List (Row F)}
      → Memᴰ row rows
      → row.currency ≡ c
      → (found : Row F) × Ends c rows found
  last_entry-Ends c {rows = []} among same = elim among [ ]
  last_entry-Ends c {rows = x ∷ xs} (Memᴰ.tail among) same =
      let (found, later) = last_entry-Ends c among same in (found, later_on c x found later)
  last_entry-Ends c {row = row} {rows = x ∷ xs} (Memᴰ.head e) same = elim (last_entry-cases c xs) [
    | inl (found, later) ↦ (found, later_on c x found later)
    | inr none_later ↦ (x, first_of c x none_later (rw e at same))
  ]

  -- A newest row of a currency.
  pub record Newest (table : List (Row F)) (c : String) : Type ℓ where
    pub row : Row F
    pub among : Memᴰ row table
    pub own : row.currency ≡ c
    pub newest :
        (other : Row F)
        → Memᴰ other table
        → other.currency ≡ c
        → other.recorded_at.ns ≤ row.recorded_at.ns

  -- `GetLatestRates` on an answer with a row of the currency.
  get_latest_rates-Newest :
      (pool : Pool F) (table rows : List (Row F)) (c : String) (some_row : Row F)
      → pool.query_latest ≡ all_read (scans_of rows)
      → IsLatest table rows
      → Memᴰ some_row table
      → some_row.currency ≡ c
      → (n : Newest table c) × (latest : Dict (Db.HistoryEntry F)) × (get_latest_rates pool
          ≡ some latest)
        × (lookup c latest ≡ some (entry_of n.row))
  unfolding get_latest_rates
  get_latest_rates-Newest pool table rows c some_row read q among same =
      let (first, in_rows, first_own) = q.complete some_row among in
      let (found, i) = last_entry-Ends c in_rows (first_own ∙ same) in
      let (m, collected, there) = lookup-collect_latest c rows [] in
      (
        record {
          row = found;
          among = q.sound found i.among;
          own = i.own;
          newest = λ other mem e. q.newest found other i.among mem (e ∙ sym i.own);
        },
        m,
        rw (read, collected) refl,
        there ∙ i.last _,
      )

module _ {ℓ} {F : Type ℓ} ⦃f : Float64 F⦄ where
  -- The answer of /rates/{currency} from the entry that the store has.
  get_rates_currency-lookup :
      (r : Rate) (store : Db.Store F) (latest : Dict (Db.HistoryEntry F)) (e : Db.HistoryEntry F)
      (s : State F) (now : Time)
      → store.get_latest_rates ≡ some latest
      → lookup (name_of r) latest ≡ some e
      → (x : RateEntry F) × (get_rates_currency (new_server_with_store s store) now (name_of r)
          ≡ write_json status_ok (rate_entry x))
        × (x.value ≡ e.value)
        × (x.last_updated ≡ some e.recorded_at)
  unfolding get_rates_currency get_rates Currency.valid switch_entry to_stored_rate_entry
  get_rates_currency-lookup usd_bcv store latest e s now got there =
      (switch_entry latest now s (name_of usd_bcv), ground arith, ground arith, ground arith)
  get_rates_currency-lookup r store latest e s now got there =
      (switch_entry latest now s (name_of r), ground arith, ground arith, ground arith)

  -- If the table has a row of a valid currency, and the query for the latest rates succeeds and keeps
  -- what SELECT DISTINCT ON promises, /rates/{currency} answers 200 with the value and the time of a row
  -- of the currency that no other is newer than.
  pub get_rates_currency-Newest :
      (pool : Pool F) (table rows : List (Row F)) (c : Currency) (some_row : Row F) (s : State F)
      (now : Time)
      → Currency.valid c ≡ true
      → pool.query_latest ≡ all_read (scans_of rows)
      → IsLatest table rows
      → Memᴰ some_row table
      → some_row.currency ≡ c
      → (n : Newest table c) × (e : RateEntry F) × (get_rates_currency
            (new_server_with_store s (db_store pool))
            now
            c
          ≡ write_json status_ok (rate_entry e))
        × (e.value ≡ n.row.value)
        × (e.last_updated ≡ some n.row.recorded_at)
  get_rates_currency-Newest pool table rows c some_row s now valid read q among same =
      let (n, latest, got, there) =
        get_latest_rates-Newest pool table rows c some_row read q among same in
      let (r, named) = (valid_iff c).0 valid in
      let (x, answered, value, time) =
        get_rates_currency-lookup r (db_store pool) latest (entry_of n.row) s now got
          (rw named at there) in
      (n, x, rw named answered, value, time)
