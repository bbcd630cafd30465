-- ===== src/Server/Alarm.antt =====
-- From a provider that keeps failing to the answer of /health.
use ve_xchange_api.Prelude.{
  ℕ, ◌-◌, ◌^◌, ◌≤◌, ◌<◌, ◌≡◌, ◌≢◌, Bool, true, false, List, length, ◌∙◌, arith, leb,
}
use ve_xchange_api.State.Effects.{Rate, Provider, comes_from}
use ve_xchange_api.Handler.{Server, status_ok, get_health}
use ve_xchange_api.Handler.Staleness.{get_health-status_iff, IsStale}
use ve_xchange_api.Worker.Streak.{streak, fetches}
use ve_xchange_api.GoTime.{Time}
use ve_xchange_api.Server.{Outside, World, world_now}
use ve_xchange_api.Server.Flags.{failing, job_of, failing-fetches}

le→leb : {a b : ℕ} → a ≤ b → leb a b ≡ true
le→leb h = ground arith

module _ {ℓ} {F X E : Type ℓ} (o : Outside F X E) where
  -- Once the fetches of a provider's job end with three or more failures, as many as an `int64` counts
  -- and started with the provider's flag down, /health on the state they leave does not answer 200,
  -- whatever the time is.
  pub get_health-fetches :
      (p : Provider) (r : Rate) (bs : List Bool) (w w' : World F X) (results : List Bool) (c : ℕ)
      (h : Server F) (now : Time)
      → comes_from r p ≡ true
      → length bs < 2 ^ 63 - 1
      → failing o r w ≡ false
      → fetches (world_now o) (job_of o p) bs 0 w ≡ (results, c, w')
      → 3 ≤ streak 0 results
      → h.app_state ≡ w'.app_state
      → (get_health h now).status ≢ status_ok
  get_health-fetches p r bs w w' results c h now own few down run long same answers =
      let (up, _) = rw run at (failing-fetches o p r bs w own few down) in
      (get_health-status_iff h now).0 answers r (IsStale.failing (rw same (up ∙ le→leb long)))
