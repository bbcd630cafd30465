-- ===== src/Examples/Nightly.antt =====
-- The nightly task on the morning of a Friday.
use ve_xchange_api.Prelude.{ℕ, ◌≡◌, refl, false, List, [], ◌∷◌}
use ve_xchange_api.Prelude.Int.{pos}
use ve_xchange_api.GoTime.{
  Time, hour, date, add_days, sub_days, day_number, days_before_year, days_before_month, is_leap,
  date_of, civil_of_day, month_of_day, year_of_day, wall,
}
use ve_xchange_api.State.Effects.{usdt}
use ve_xchange_api.Worker.Schedule.{next_daily}
use ve_xchange_api.Worker.Loop.{fired}
use ve_xchange_api.Worker.Task.{waiting, task_step}
use ve_xchange_api.Db.Table.{Row, in_window, is_raw, select, values, average_row}
use ve_xchange_api.Server.{utc_minus_4, consolidation_window}
use ve_xchange_api.Server.Nightly.{consolidation_job}
use ve_xchange_api.Server.Nightly.Averages.{all_ok, table_store, read_at, task_step-average_row}
use ve_xchange_api.Examples.Toys.{july}
use ve_xchange_api.Examples.Tables.{mean_of_two}

abbrev at_one : Time
at_one = july 10 1 utc_minus_4

abbrev thursday_row : ℕ → ℕ → Row ℕ
thursday_row v h = record {
  currency = "usdt";
  value = v;
  recorded_at = july 9 h utc_minus_4;
  is_average = false;
}

abbrev thursday_rows : List (Row ℕ)
thursday_rows = thursday_row 40 9 ∷ thursday_row 44 15 ∷ []

nightly_example :
    let (from, to) = consolidation_window at_one in
    let job = consolidation_job (read_at at_one) (table_store mean_of_two (λ c. all_ok)) in
    let (phase, table') = task_step (read_at at_one) job fired (waiting (pos hour)) thursday_rows in
    (phase ≡ waiting (next_daily job.daily_at at_one))
    × (select (in_window "usdt" from to) table'
        ≡ average_row "usdt"
            (mean_of_two (values (select (is_raw "usdt" from to) thursday_rows)))
            from
          ∷ [])
unfolding select values consolidation_window date date_of wall add_days sub_days civil_of_day
    month_of_day year_of_day day_number days_before_year days_before_month is_leap
nightly_example =
    task_step-average_row mean_of_two (λ c. all_ok) at_one thursday_rows (pos hour) usdt refl refl
      (λ e. absurd (cc))
