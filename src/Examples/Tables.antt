-- ===== src/Examples/Tables.antt =====
-- The consolidation of a table of three rows.
use ve_xchange_api.Prelude.{ℕ, ◌+◌, ◌/◌, ◌≡◌, refl, false, true, List, [], ◌∷◌, arith}
use ve_xchange_api.GoTime.{Time, utc}
use ve_xchange_api.Db.Table.{
  Row, Calls, in_window, select, delete, values, average_row, consolidate_day,
}
use ve_xchange_api.Db.Table.Consolidated.{
  delete-consolidate_day, consolidate_day_ok, consolidate_day_idem,
}

abbrev pub at : ℕ → Time
at n = record { ns = n; loc = utc }

abbrev pub three_rows : List (Row ℕ)
three_rows =
    record { currency = "usdt"; value = 40; recorded_at = at 100; is_average = false }
    ∷ record { currency = "usdt"; value = 44; recorded_at = at 150; is_average = false }
    ∷ record { currency = "usd_bcv"; value = 36; recorded_at = at 120; is_average = false }
    ∷ []

-- In place of AVG.
abbrev pub mean_of_two : List ℕ → ℕ
mean_of_two (a ∷ b ∷ []) = (a + b) / 2
mean_of_two _ = 0

abbrev pub all_succeed : Calls
all_succeed = record {
  begins = true;
  averages = true;
  deletes_raw = true;
  deletes_average = true;
  inserts = true;
  commits = true;
}

abbrev insert_fails : Calls
insert_fails = record all_succeed { inserts = false }

kept_rows_example :
    delete
      (in_window "usdt" (at 100) (at 200))
      (consolidate_day mean_of_two insert_fails "usdt" (at 100) (at 200) three_rows).1
    ≡ delete (in_window "usdt" (at 100) (at 200)) three_rows
kept_rows_example =
    delete-consolidate_day mean_of_two insert_fails "usdt" (at 100) (at 200) three_rows
      (omega arith)

consolidated_example :
    select
      (in_window "usdt" (at 100) (at 200))
      (consolidate_day mean_of_two all_succeed "usdt" (at 100) (at 200) three_rows).1
    ≡ average_row "usdt" 42 (at 100) ∷ []
unfolding consolidate_day select values
consolidated_example =
    consolidate_day_ok mean_of_two all_succeed "usdt" (at 100) (at 200) three_rows (omega arith)
      (λ e. absurd (cc)) refl

second_run_example :
    (consolidate_day mean_of_two insert_fails "usdt"
      (at 100)
      (at 200)
      (consolidate_day mean_of_two all_succeed "usdt" (at 100) (at 200) three_rows).1).1
    ≡ (consolidate_day mean_of_two all_succeed "usdt" (at 100) (at 200) three_rows).1
unfolding consolidate_day select values
second_run_example =
    consolidate_day_idem mean_of_two all_succeed insert_fails "usdt" (at 100) (at 200) three_rows
      refl
