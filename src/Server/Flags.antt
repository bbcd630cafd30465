-- ===== src/Server/Flags.antt =====
-- The failing flags of the jobs that `main` sets up.
use Prim.Native.String.{String}
use ve_xchange_api.Prelude.{
  ◌-◌, ◌^◌, ◌<◌, ◌≡◌, suc, refl, Bool, true, false, List, length, arith, leb,
}
use ve_xchange_api.Rates.{PriceResponse}
use ve_xchange_api.State.{
  mark_bcv_failing, clear_bcv_failing, mark_binance_failing, clear_binance_failing,
  update_bcv_price, update_binance_price,
}
use ve_xchange_api.State.Effects.{Rate, rate_of, Provider, bcv, binance, comes_from}
use ve_xchange_api.Worker.Job.{ProviderJob}
use ve_xchange_api.Worker.Streak.{Flag, streak, fetches, fetches-Agrees}
use ve_xchange_api.Worker.Loop.{Event}
use ve_xchange_api.Worker.Goroutine.{launch, run}
use ve_xchange_api.Worker.Goroutine.Flags.{run-Agrees}
use ve_xchange_api.Server.{
  Outside, World, world_now, on_state, count_fetch, apply_bcv, apply_binance, bcv_job, binance_job,
}

module _ {ℓ} {F X E : Type ℓ} (o : Outside F X E) where
  abbrev pub failing : Rate → World F X → Bool
  failing r w = (rate_of r w.app_state).provider_failing

  abbrev pub job_of : Provider → ProviderJob (World F X) (PriceResponse F) E
  job_of bcv = bcv_job o
  job_of binance = binance_job o

  abbrev pub label_of : Provider → String
  label_of bcv = "BCV"
  label_of binance = "USDT"

  -- The flag of each rate is one that its provider's job keeps.
  job_of-Flag :
      (p : Provider) (r : Rate) → comes_from r p ≡ true → Flag (world_now o) (job_of p) (failing r)
  unfolding mark_bcv_failing clear_bcv_failing mark_binance_failing clear_binance_failing apply_bcv
      apply_binance update_bcv_price update_binance_price
  job_of-Flag bcv r own = record {
    on_fail = λ c. on_state o mark_bcv_failing;
    has_on_fail = refl;
    raises = λ c w. ground arith;
    on_recover = on_state o clear_bcv_failing;
    has_on_recover = refl;
    lowers = λ w. ground arith;
    after_fetch = count_fetch o "BCV";
    has_after_fetch = refl;
    after_keeps = λ c b w. refl;
    apply_keeps = λ resp w. ground arith;
    now_keeps = λ w. refl;
    get_keeps = λ w. refl;
  }
  job_of-Flag binance r own = record {
    on_fail = λ c. on_state o mark_binance_failing;
    has_on_fail = refl;
    raises = λ c w. ground arith;
    on_recover = on_state o clear_binance_failing;
    has_on_recover = refl;
    lowers = λ w. ground arith;
    after_fetch = count_fetch o "USDT";
    has_after_fetch = refl;
    after_keeps = λ c b w. refl;
    apply_keeps = λ resp w. ground arith;
    now_keeps = λ w. refl;
    get_keeps = λ w. refl;
  }

  -- After any fetches of a provider's job on a world in which the flag of a rate of the provider is
  -- down, as many as an `int64` counts, the flag is up exactly when the streak of failures that the
  -- results end with is of three or more, and that streak is the counter's value.
  pub failing-fetches :
      (p : Provider) (r : Rate) (bs : List Bool) (w : World F X)
      → comes_from r p ≡ true
      → length bs < 2 ^ 63 - 1
      → failing r w ≡ false
      → let (results, c, w') = fetches (world_now o) (job_of p) bs 0 w in
        (failing r w' ≡ leb 3 (streak 0 results)) × (c ≡ streak 0 results)
  failing-fetches p r bs w own h down =
      fetches-Agrees (world_now o) (job_of p) (failing r) (job_of-Flag p r own) bs 0 w (omega arith)
        down

  -- The goroutine of a provider's job, from its first fetch on, on a world in which the flag of a rate
  -- of the provider is down: after timers that fire and cancellations in any order, fewer than an
  -- `int64` counts, the flag is up exactly when the job's counter is three or more.
  pub failing-run :
      (p : Provider) (r : Rate) (es : List Event) (w : World F X)
      → comes_from r p ≡ true
      → suc (length es) < 2 ^ 63
      → failing r w ≡ false
      → let (place, s) = launch (world_now o) (job_of p) w in
        let (place', (c, w')) = run (world_now o) (job_of p) es place s in failing r w' ≡ leb 3 c
  failing-run p r es w own h down =
      run-Agrees (world_now o) (job_of p) (failing r) (job_of-Flag p r own) es w h down
