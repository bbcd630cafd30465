-- ===== src/Examples/EndToEnd.antt =====
-- The job of BCV over a client that answers every request, with a clock that runs on and a table with
-- an old row.
use Prim.Native.String.{String}
use mathlib.Core.List.{Memᴰ}
use text.Mathlib.TextEquality.{eq_iff}
use ve_xchange_api.Prelude.{
  ℕ, ◌+◌, ◌≤◌, ◌<◌, ◌≡◌, refl, Bool, true, false, ◌⊎◌, leb, none, List, [], ◌∷◌, ◌++◌, arith,
}
use ve_xchange_api.Prelude.Dict.{insert}
use ve_xchange_api.Prelude.Result.{ok}
use ve_xchange_api.GoTime.{
  Time, date, utc, weekday, add_days, day_number, days_before_year, days_before_month, is_leap,
  date_of, civil_of_day, month_of_day, year_of_day, wall,
}
use ve_xchange_api.GoTime.DateOnly.{is_digit}
use ve_xchange_api.Rates.{PriceResponse}
use ve_xchange_api.State.Effects.{usd_bcv}
use ve_xchange_api.Api.Types.{RateEntry}
use ve_xchange_api.Handler.{
  new_server_with_store, status_ok, rate_entry, write_json, get_rates_currency,
}
use ve_xchange_api.Worker.Job.{fetch}
use ve_xchange_api.Db.Table.{Row}
use ve_xchange_api.Db.Queries.{Pool, db_store}
use ve_xchange_api.Db.Queries.Served.{IsLatest, Newest, scans_of, all_read}
use ve_xchange_api.Provider.Http.{Http}
use ve_xchange_api.Provider.Faker.{FakeHttpDoer, fake_do}
use ve_xchange_api.Provider.Retry.{attempt, with_retry}
use ve_xchange_api.Provider.Localized.{
  contains, parse_localized_number, keep_numeric, normalize, remove_all, replace_all, is_numeric,
}
use ve_xchange_api.Provider.EffectiveDate.{
  atoi_from, parse_effective_date, to_lower, is_space, is_alpha, span, match_here, find_match,
  month_in,
}
use ve_xchange_api.Provider.Bcv as Bcv
use ve_xchange_api.Provider.Bcv.{new_bcv_provider, ask_page}
use ve_xchange_api.Provider.Bcv.Page.{
  bcv_response, drop_spaces, reversed, trim_space, rate_text, effective_date_text, parse_bcv_rates,
}
use ve_xchange_api.Provider.Bcv.Published.{Published}
use ve_xchange_api.Provider.Publication.{validate_bcv_publication, next_business_date, skip_weekend}
use ve_xchange_api.Server.{utc_minus_4, World, world_now, bcv_job, apply_bcv}
use ve_xchange_api.Server.Backend.{Backend, backend}
use ve_xchange_api.Server.Backend.Fetched.{raw_row, fetch-bcv_job}
use ve_xchange_api.Server.Backend.Served.{table-apply_bcv_if, get_rates_currency-apply_bcv}
use ve_xchange_api.Examples.Toys.{nat_float, no_rates, toy_world, friday_evening}
use ve_xchange_api.Examples.Providers.{toy_page, toy_codec}

abbrev fake_client : FakeHttpDoer String
fake_client = record { status_code = 200; body = "<html>"; error = none; do_func = none }

abbrev fake_http : Http ℕ String String
fake_http = record {
  new_request = λ m u b. ok (record { method = m; url = u; headers = []; body = b });
  send = λ req w. (fake_do fake_client req, w + 1);
  sleep = λ d w. w;
}

abbrev running : ℕ → Time × ℕ
running v = (record friday_evening { ns = friday_evening.ns + v }, v + 1)

abbrev takes_all : ℕ → Bool × ℕ
takes_all v = (true, v)

abbrev old_row : Row ℕ
old_row = raw_row "usd_bcv" 35 (record { ns = 0; loc = utc })

abbrev before_fetch : World ℕ (Backend ℕ ℕ)
before_fetch = record {
  app_state = no_rates;
  metrics = toy_world.metrics;
  has_store = true;
  outside = record { net = 0; table = old_row ∷ [] };
}

fetch_example :
    let o = backend fake_http toy_page toy_codec running takes_all in
    let (done, c', w') = fetch (world_now o) (bcv_job o) true 0 before_fetch in
    (resp : PriceResponse ℕ) × (q : Published resp) × ((Bcv.get_prices fake_http toy_page
        new_bcv_provider 0).0
      ≡ ok resp)
    × ((true ≡ false)
        ⊎ ((u : ℕ) × (validate_bcv_publication resp (running u).0 utc_minus_4 ≡ none)))
    × (w'.app_state.usd_bcv.value ≡ q.usd)
    × (w'.app_state.eur_bcv.value ≡ q.eur)
    × ((v : ℕ) × (w'.outside.table
          ≡ (old_row ∷ [])
            ++ (raw_row "usd_bcv" q.usd (running v).0
                ∷ raw_row "eur_bcv" q.eur (running v).0
                ∷ [])))
unfolding fetch validate_bcv_publication next_business_date skip_weekend weekday add_days
    Bcv.get_prices ask_page with_retry attempt insert parse_bcv_rates rate_text effective_date_text
    trim_space reversed drop_spaces parse_localized_number is_numeric keep_numeric normalize
    contains remove_all replace_all parse_effective_date to_lower is_space is_alpha span match_here
    find_match atoi_from month_in is_digit date_of civil_of_day month_of_day wall date day_number
    days_before_year days_before_month is_leap year_of_day
fetch_example =
    fetch-bcv_job fake_http toy_page toy_codec running takes_all true 0 before_fetch refl
      (λ v. refl) refl

abbrev at_apply : Time
at_apply = (running 1).0

-- The dollar's row cannot be written, and the euro's can.
abbrev takes_second : ℕ → Bool × ℕ
takes_second v = (leb 3 v, v + 1)

abbrev eur_row : Row ℕ
eur_row = raw_row "eur_bcv" 40 at_apply

abbrev two_rows : List (Row ℕ)
two_rows = old_row ∷ eur_row ∷ []

two_rows-IsLatest : IsLatest two_rows two_rows
two_rows-IsLatest = record {
  sound = λ row i. i;
  complete = λ row i. (row, i, refl);
  newest = latest;
}
  where
    latest :
        (row other : Row ℕ)
        → Memᴰ row two_rows
        → Memᴰ other two_rows
        → other.currency ≡ row.currency
        → other.recorded_at.ns ≤ row.recorded_at.ns
    latest row other (Memᴰ.head e) (Memᴰ.head e') same = rw (e, e') (omega arith)
    latest row other (Memᴰ.head e) (Memᴰ.tail (Memᴰ.head e')) same =
        absurd (ground (arith, (eq_iff "eur_bcv" "usd_bcv").1 (rw (e, e') at same)))
    latest row other (Memᴰ.tail (Memᴰ.head e)) (Memᴰ.head e') same = rw (e, e') (omega arith)
    latest row other (Memᴰ.tail (Memᴰ.head e)) (Memᴰ.tail (Memᴰ.head e')) same =
        rw (e, e') (omega arith)
    latest row other (Memᴰ.tail (Memᴰ.tail i)) j same = elim i [ ]
    latest row other i (Memᴰ.tail (Memᴰ.tail j)) same = elim j [ ]

abbrev pool_of_two : Pool ℕ
pool_of_two = record {
  query_latest = all_read (scans_of two_rows);
  query_history = λ c from to. none;
}

older_than_apply : (old : Row ℕ) → Memᴰ old (old_row ∷ []) → old.recorded_at.ns < at_apply.ns
older_than_apply old (Memᴰ.head e) = rw e (omega arith)
older_than_apply old (Memᴰ.tail i) = elim i [ ]

table_after_apply :
    (apply_bcv
      (backend fake_http toy_page toy_codec running takes_second)
      (bcv_response 36 40 friday_evening)
      before_fetch).outside.table
    ≡ two_rows
table_after_apply =
    table-apply_bcv_if fake_http toy_page toy_codec running takes_second 36 40 friday_evening
      before_fetch refl

served_example :
    let w' =
      apply_bcv
        (backend fake_http toy_page toy_codec running takes_second)
        (bcv_response 36 40 friday_evening)
        before_fetch in
    (e : RateEntry ℕ) × (get_rates_currency
        (new_server_with_store w'.app_state (db_store pool_of_two))
        friday_evening
        "usd_bcv"
      ≡ write_json status_ok (rate_entry e))
    × (((false ≡ true) × (e.value ≡ w'.app_state.usd_bcv.value))
        ⊎ ((false ≡ false) × ((n : Newest (old_row ∷ []) "usd_bcv") × (e.value ≡ n.row.value))))
served_example =
    get_rates_currency-apply_bcv fake_http toy_page toy_codec running takes_second 36 40
      friday_evening before_fetch refl pool_of_two two_rows refl
      (rw table_after_apply two_rows-IsLatest) older_than_apply usd_bcv refl old_row
      (rw table_after_apply (Memᴰ.head refl)) refl friday_evening
