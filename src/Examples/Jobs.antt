-- ===== src/Examples/Jobs.antt =====
-- The jobs of the server in a world where BCV's page never answers.
use ve_xchange_api.Prelude.{ℕ, ◌≡◌, ◌≢◌, refl, Bool, true, false, some, List, [], ◌∷◌, arith, leb}
use ve_xchange_api.Prelude.Dict.{Dict}
use ve_xchange_api.State.Effects.{usd_bcv, eur_bcv, bcv, binance}
use ve_xchange_api.State.Interleave.{
  stop, left, right, update, mark, run_together, run_alone, run_together-eq,
}
use ve_xchange_api.Db as Db
use ve_xchange_api.Handler.{status_ok, new_server, get_health}
use ve_xchange_api.Worker.Job.{fetch}
use ve_xchange_api.Worker.Streak.{streak, fetches}
use ve_xchange_api.Server.{World, world_now, warm_start}
use ve_xchange_api.Server.Flags.{failing, job_of, failing-fetches}
use ve_xchange_api.Server.Alarm.{get_health-fetches}
use ve_xchange_api.Server.WarmUp.{warm_start-eq}
use ve_xchange_api.Examples.Toys.{toy, toy_world, july, friday_evening, monday_prices, row}
use ve_xchange_api.GoTime.{utc}

-- A first fetch and two scheduled ones.
abbrev three : List Bool
three = false ∷ true ∷ true ∷ []

abbrev after_three : World ℕ ℕ
after_three = (fetches (world_now toy) (job_of toy bcv) three 0 toy_world).2

failing_example :
    let (results, c, w') = fetches (world_now toy) (job_of toy bcv) three 0 toy_world in
    (failing toy usd_bcv w' ≡ leb 3 (streak 0 results)) × (c ≡ streak 0 results)
failing_example = failing-fetches toy bcv usd_bcv three toy_world refl (omega arith) refl

alarm_example : (get_health (new_server after_three.app_state) friday_evening).status ≢ status_ok
unfolding fetches fetch
alarm_example =
    get_health-fetches toy bcv usd_bcv three toy_world after_three (false ∷ false ∷ false ∷ []) 3
      (new_server after_three.app_state) friday_evening refl (omega arith) refl refl (omega arith)
      refl

run_together_example :
    run_together
      ((binance, mark) ∷ (bcv, update friday_evening monday_prices) ∷ [])
      toy_world.app_state
    ≡ run_alone binance
        (mark ∷ [])
        (run_alone bcv (update friday_evening monday_prices ∷ []) toy_world.app_state)
run_together_example = run_together-eq toy_world.app_state (right (left stop))

-- The rows of both BCV rates, as the server writes them.
abbrev two_rows : Dict (Db.HistoryEntry ℕ)
two_rows = ("usd_bcv", row 36 (july 9 18 utc)) ∷ ("eur_bcv", row 40 (july 9 18 utc)) ∷ []

warm_start_example : warm_start toy_world.app_state (some two_rows) ≡ toy_world.app_state
warm_start_example =
    warm_start-eq toy_world.app_state (some two_rows) ((usd_bcv, refl), ((eur_bcv, refl), tt))
