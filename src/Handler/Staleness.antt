-- ===== src/Handler/Staleness.antt =====
-- Which rates are stale, and what /health says of them.
use ve_xchange_api.Prelude.{
  ℕ, ◌+◌, ◌-◌, ◌^◌, ◌<◌, true, ◌≡◌, ◌≢◌, refl, inl, inr, ◌↔◌, Bool-cases, Option-cases, none, some,
  List, [], ◌∷◌, arith, if◌then◌else◌,
}
use ve_xchange_api.GoTime.{Time}
use ve_xchange_api.GoTime.Instant.{lt-sub_iff}
use ve_xchange_api.State.{State, get_rates}
use ve_xchange_api.State.Effects.{Rate, usd_bcv, eur_bcv, usdt, usdt_compra, usdt_venta, rate_of}
use ve_xchange_api.Api.Currency
use ve_xchange_api.Api.Currency.{Currency}
use ve_xchange_api.Api.Types.{degraded, ok}
use ve_xchange_api.Handler.{
  staleness_bcv, staleness_binance, status_ok, status_service_unavailable, Response, Server, health,
  write_json, is_stale, get_health,
}

-- The name of a rate in the interface, and its threshold.
abbrev pub name_of : Rate → Currency
name_of usd_bcv = Currency.usd_bcv
name_of eur_bcv = Currency.eur_bcv
name_of usdt = Currency.usdt
name_of usdt_compra = Currency.usdt_compra
name_of usdt_venta = Currency.usdt_venta

abbrev pub threshold_of : Rate → ℕ
threshold_of usd_bcv = staleness_bcv
threshold_of eur_bcv = staleness_bcv
threshold_of _ = staleness_binance

abbrev pub all_five : List Rate
all_five = usd_bcv ∷ eur_bcv ∷ usdt ∷ usdt_compra ∷ usdt_venta ∷ []

pub threshold_of-lt : (r : Rate) → threshold_of r < 2 ^ 63 - 1
threshold_of-lt usd_bcv = omega arith
threshold_of-lt _ = omega arith

module _ {ℓ} {F : Type ℓ} where
  -- The rate `r` is stale: its provider fails, it was never stored, or more than its threshold has
  -- passed since.
  pub data IsStale (s : State F) (now : Time) (r : Rate) : Type ℓ where
    failing : (rate_of r s).provider_failing ≡ true → IsStale s now r
    missing : (rate_of r s).last_updated ≡ none → IsStale s now r
    old :
        (t : Time)
        → (rate_of r s).last_updated ≡ some t
        → t.ns + threshold_of r < now.ns
        → IsStale s now r

  is_stale-IsStale :
      (s : State F) (now : Time) (r : Rate)
      → is_stale (rate_of r s) (threshold_of r) now ≡ true
      → IsStale s now r
  unfolding is_stale
  is_stale-IsStale s now r e = elim (Bool-cases (rate_of r s).provider_failing) [
    | inl yes_failing ↦ failing yes_failing
    | inr sound ↦ elim (Option-cases (rate_of r s).last_updated) [
      | inl never ↦ missing never
      | inr (t, q) ↦
          old t q ((lt-sub_iff (threshold_of r) now t (threshold_of-lt r)).0 (ground arith))
    ]
  ]

  IsStale-is_stale :
      (s : State F) (now : Time) (r : Rate)
      → IsStale s now r
      → is_stale (rate_of r s) (threshold_of r) now ≡ true
  unfolding is_stale
  IsStale-is_stale s now r (failing e) = rw e
  IsStale-is_stale s now r (missing e) = ground arith
  IsStale-is_stale s now r (old t e h) =
      ground (arith, (lt-sub_iff (threshold_of r) now t (threshold_of-lt r)).1 h)

  -- A rate is reported stale exactly when its provider fails, when it was never stored, or when more
  -- time than its threshold, 26 hours for BCV's and 15 minutes for Binance's, has passed since.
  is_stale_iff :
      (s : State F) (now : Time) (r : Rate)
      → (is_stale (rate_of r s) (threshold_of r) now ≡ true) ↔ IsStale s now r
  is_stale_iff s now r = (is_stale-IsStale s now r, IsStale-is_stale s now r)

  -- The names of the stale rates among some, in their order.
  pub stale_among : List Rate → State F → Time → List Currency
  stale_among [] s now = []
  stale_among (r ∷ rs) s now =
      let rest = stale_among rs s now in
      if is_stale (rate_of r s) (threshold_of r) now then name_of r ∷ rest else rest

  abbrev pub report : List Currency → Response F
  report [] = write_json status_ok (health (record { stale = none; status = ok }))
  report (c ∷ cs) =
      write_json status_service_unavailable
        (health (record { stale = some (c ∷ cs); status = degraded }))

  -- /health answers 200 and "ok" if no rate is stale, and otherwise 503, "degraded" and the names of
  -- the stale rates, in the order usd_bcv, eur_bcv, usdt, usdt_compra, usdt_venta.
  get_health_lem :
      (h : Server F) (now : Time) → get_health h now ≡ report (stale_among all_five h.app_state now)
  unfolding get_health get_rates stale_among
  get_health_lem h now = ground arith

  stale_among-fresh :
      (rs : List Rate) (s : State F) (now : Time)
      → ((r : Rate) → ¬ IsStale s now r)
      → stale_among rs s now ≡ []
  unfolding stale_among
  stale_among-fresh [] s now h = refl
  stale_among-fresh (r ∷ rs) s now h =
      elim (Bool-cases (is_stale (rate_of r s) (threshold_of r) now)) [
        | inl e ↦ absurd (h r (is_stale-IsStale s now r e))
        | inr e ↦ rw e (stale_among-fresh rs s now h)
      ]

  stale_among-stale :
      (s : State F) (now : Time) (r : Rate) → IsStale s now r → stale_among all_five s now ≢ []
  unfolding stale_among
  stale_among-stale s now r i = let e = IsStale-is_stale s now r i in ground arith

report-status {ℓ} :
    (F : Type ℓ) (cs : List Currency) → (report {F = F} cs).status ≡ status_ok → cs ≡ []
report-status F [] e = refl
report-status F (c ∷ cs) e = absurd (omega arith)

module _ {ℓ} {F : Type ℓ} where
  -- /health answers 200 exactly when no rate is stale.
  pub get_health-status_iff :
      (h : Server F) (now : Time)
      → ((get_health h now).status ≡ status_ok) ↔ ((r : Rate) → ¬ IsStale h.app_state now r)
  get_health-status_iff h now = rw get_health_lem (
    λ e r i. stale_among-stale h.app_state now r i (report-status F _ e),
    λ fresh. rw (stale_among-fresh all_five h.app_state now fresh),
  )
