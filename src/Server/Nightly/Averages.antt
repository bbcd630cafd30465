-- ===== src/Server/Nightly/Averages.antt =====
-- What the nightly consolidation leaves in the table prices_history.
use Prim.Native.String.{String}
use text.Mathlib.Text.{◌==◌}
use text.Mathlib.TextEquality.{eq_iff}
use ve_xchange_api.Prelude.{
  ◌≡◌, ◌≢◌, ◌<◌, refl, ◌∙◌, sym, ap, Bool, true, false, Option, none, some, List, [], ◌∷◌, arith,
}
use ve_xchange_api.Prelude.Int.{ℤ}
use ve_xchange_api.GoTime.{Time, add_days}
use ve_xchange_api.State.Effects.{
  Rate, usd_bcv, eur_bcv, usdt, usdt_compra, usdt_venta, binance, comes_from,
}
use ve_xchange_api.Handler.Staleness.{name_of}
use ve_xchange_api.Worker.Schedule.{next_daily}
use ve_xchange_api.Worker.Loop.{fired}
use ve_xchange_api.Worker.Task.{waiting, task_step}
use ve_xchange_api.Db.Table.{
  Row, Calls, DbError, in_window, is_raw, select, delete, values, average_row, finish,
  consolidate_day,
}
use ve_xchange_api.Db.Table.Consolidated.{consolidate_day_ok, delete-consolidate_day}
use ve_xchange_api.Server.{consolidation_window}
use ve_xchange_api.Server.Nightly.{
  ConsolidateDay, consolidate_each, run_consolidation, consolidation_job,
}

-- No call of the database fails.
abbrev pub all_ok : Calls
all_ok = record {
  begins = true;
  averages = true;
  deletes_raw = true;
  deletes_average = true;
  inserts = true;
  commits = true;
}

consolidation_window-lt :
    (now : Time) → let (from, to) = consolidation_window now in from.ns < to.ns
unfolding consolidation_window add_days
consolidation_window-lt now = omega arith

abbrev pub is_no_error : Option DbError → Bool
is_no_error none = true
is_no_error (some e) = false

module _ {ℓ} {F : Type ℓ} where
  select-delete :
      (test gone : Row F → Bool) (table : List (Row F))
      → ((row : Row F) → test row ≡ true → gone row ≡ false)
      → select test (delete gone table) ≡ select test table
  unfolding select
  select-delete test gone [] apart = refl
  select-delete test gone (row ∷ rows) apart =
      ground (arith, select-delete test gone rows apart, apart row)

  -- A test that only rows of one currency in the window pass sees nothing of another's consolidation.
  select-consolidate_day :
      (test : Row F → Bool) (avg : List F → F) (calls : Calls) (c : String) (from to : Time)
      (table : List (Row F))
      → from.ns < to.ns
      → ((row : Row F) → test row ≡ true → in_window c from to row ≡ false)
      → select test (consolidate_day avg calls c from to table).1 ≡ select test table
  select-consolidate_day test avg calls c from to table h apart =
      sym (select-delete test (in_window c from to) _ apart)
      ∙ ap (select test) (delete-consolidate_day avg calls c from to table h)
      ∙ select-delete test (in_window c from to) table apart

  in_window-apart :
      (c d : String) (from to : Time) (row : Row F)
      → (c == d) ≡ false
      → in_window c from to row ≡ true
      → in_window d from to row ≡ false
  in_window-apart c d from to row other own =
      ground (arith, eq_iff row.currency c, eq_iff row.currency d, eq_iff c d)

  in_window-is_raw :
      (c : String) (from to : Time) (row : Row F)
      → is_raw c from to row ≡ true
      → in_window c from to row ≡ true
  in_window-is_raw c from to row h = ground arith

  finish-none :
      (avg : List F → F) (c : String) (from to : Time) (table : List (Row F)) (vs : List F)
      → (finish avg all_ok c from to table vs).0 ≡ none
  finish-none avg c from to table [] = refl
  finish-none avg c from to table (v ∷ vs) = refl

  consolidate_day-none :
      (avg : List F → F) (c : String) (from to : Time) (table : List (Row F))
      → (consolidate_day avg all_ok c from to table).0 ≡ none
  unfolding consolidate_day
  consolidate_day-none avg c from to table =
      finish-none avg c from to table (values (select (is_raw c from to) table))

  -- `DBStore` on the table, with the calls that succeed for each currency.
  abbrev pub table_store : (List F → F) → (String → Calls) → ConsolidateDay (List (Row F))
  table_store avg calls c from to table =
      let (e, table') = consolidate_day avg (calls c) c from to table in (is_no_error e, table')

  consolidated :
      (avg : List F → F) (calls : String → Calls) (c : String) (from to : Time)
      (table table' : List (Row F))
      → from.ns < to.ns
      → calls c ≡ all_ok
      → select (is_raw c from to) table' ≡ select (is_raw c from to) table
      → values (select (is_raw c from to) table) ≢ []
      → select (in_window c from to) (consolidate_day avg (calls c) c from to table').1
        ≡ average_row c (avg (values (select (is_raw c from to) table))) from ∷ []
  consolidated avg calls c from to table table' h good same raw =
      let there : values (select (is_raw c from to) table') ≢ [] = rw same raw in
      rw good (
        consolidate_day_ok avg all_ok c from to table' h there
          (consolidate_day-none avg c from to table'))
      ∙ ap (λ (rows : List (Row F)). average_row c (avg (values rows)) from ∷ []) same

  -- The rows of a currency in the window, and the raw ones among them, after another's consolidation.
  unmoved :
      (avg : List F → F) (calls : Calls) (c d : String) (from to : Time) (table : List (Row F))
      → from.ns < to.ns
      → (c == d) ≡ false
      → (select (in_window c from to) (consolidate_day avg calls d from to table).1
          ≡ select (in_window c from to) table)
        × (select (is_raw c from to) (consolidate_day avg calls d from to table).1
            ≡ select (is_raw c from to) table)
  unmoved avg calls c d from to table h other = (
    select-consolidate_day (in_window c from to) avg calls d from to table h
        (λ row own. in_window-apart c d from to row other own),
    select-consolidate_day (is_raw c from to) avg calls d from to table h
        (λ row own. in_window-apart c d from to row other (in_window-is_raw c from to row own)),
  )

  -- A clock that stands.
  abbrev pub read_at : Time → List (Row F) → Time × List (Row F)
  read_at now rows = (now, rows)

  -- When the timer of the nightly task fires at `now`, on a table that the database keeps: of each rate
  -- of Binance whose own calls all succeed and that has a raw row in the day before, one row is left in
  -- that day, the average of its raw values, at the start; whatever calls fail for the other rates. And
  -- the task waits for its next time.
  pub task_step-average_row :
      (avg : List F → F) (calls : String → Calls) (now : Time) (table : List (Row F)) (timer : ℤ)
      (r : Rate)
      → comes_from r binance ≡ true
      → calls (name_of r) ≡ all_ok
      → let (from, to) = consolidation_window now in
        values (select (is_raw (name_of r) from to) table) ≢ []
        → let (from, to) = consolidation_window now in
          let job = consolidation_job (read_at now) (table_store avg calls) in
          let (phase, table') = task_step (read_at now) job fired (waiting timer) table in
          (phase ≡ waiting (next_daily job.daily_at now))
          × (select (in_window (name_of r) from to) table'
              ≡ average_row
                  (name_of r)
                  (avg (values (select (is_raw (name_of r) from to) table)))
                  from
                ∷ [])
  unfolding task_step run_consolidation consolidate_each
  task_step-average_row avg calls now table timer usd_bcv own good raw = absurd (cc)
  task_step-average_row avg calls now table timer eur_bcv own good raw = absurd (cc)
  task_step-average_row avg calls now table timer usdt own good raw =
      let (from, to) = consolidation_window now in
      let h = consolidation_window-lt now in
      let t1 = (table_store avg calls "usdt" from to table).1 in
      let t2 = (table_store avg calls "usdt_compra" from to t1).1 in
      (
        refl,
        (unmoved avg (calls "usdt_venta") "usdt" "usdt_venta" from to t2 h refl).0
            ∙ (unmoved avg (calls "usdt_compra") "usdt" "usdt_compra" from to t1 h refl).0
            ∙ consolidated avg calls "usdt" from to table table h good refl raw,
      )
  task_step-average_row avg calls now table timer usdt_compra own good raw =
      let (from, to) = consolidation_window now in
      let h = consolidation_window-lt now in
      let t1 = (table_store avg calls "usdt" from to table).1 in
      let t2 = (table_store avg calls "usdt_compra" from to t1).1 in
      (
        refl,
        (unmoved avg (calls "usdt_venta") "usdt_compra" "usdt_venta" from to t2 h refl).0
            ∙ consolidated avg calls "usdt_compra" from to table t1 h good
                (unmoved avg (calls "usdt") "usdt_compra" "usdt" from to table h refl).1 raw,
      )
  task_step-average_row avg calls now table timer usdt_venta own good raw =
      let (from, to) = consolidation_window now in
      let h = consolidation_window-lt now in
      let t1 = (table_store avg calls "usdt" from to table).1 in
      let t2 = (table_store avg calls "usdt_compra" from to t1).1 in
      (
        refl,
        consolidated avg calls "usdt_venta" from to table t2 h good
            ((unmoved avg (calls "usdt_compra") "usdt_venta" "usdt_compra" from to t1 h refl).1
              ∙ (unmoved avg (calls "usdt") "usdt_venta" "usdt" from to table h refl).1)
            raw,
      )
