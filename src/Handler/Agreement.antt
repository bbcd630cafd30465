-- ===== src/Handler/Agreement.antt =====
-- /rates and /rates/{currency}: what an entry says, and that the two agree.
use text.Mathlib.Text.{◌==◌}
use text.Mathlib.TextEquality.{eq_iff}
use ve_xchange_api.Prelude.{
  ℕ, ◌+◌, ◌-◌, ◌^◌, ◌<◌, Bool, true, ◌≡◌, refl, ◌↔◌, ◌⊎◌, Bool-cases, Option-cases, inl, inr, none,
  some, arith,
}
use ve_xchange_api.Prelude.Dict.{Dict, lookup}
use ve_xchange_api.Prelude.Float.{Float64}
use ve_xchange_api.GoTime.{Time}
use ve_xchange_api.GoTime.Instant.{lt-sub_iff}
use ve_xchange_api.State.{State, get_rates}
use ve_xchange_api.State.Effects.{Rate, usd_bcv, eur_bcv, usdt, usdt_compra, usdt_venta, rate_of}
use ve_xchange_api.Db as Db
use ve_xchange_api.Api.Currency
use ve_xchange_api.Api.Currency.{Currency}
use ve_xchange_api.Api.Types.{RateEntry, AllRates}
use ve_xchange_api.Handler.{
  Body, all_rates, rate_entry, Server, status_ok, write_json, all_entries, switch_entry,
  to_stored_rate_entry, get_rates_handler, get_rates_currency,
}
use ve_xchange_api.Handler.Staleness.{name_of, threshold_of, threshold_of-lt}

-- The valid currencies are the names of the five rates.
valid-name_of : (r : Rate) → Currency.valid (name_of r) ≡ true
unfolding Currency.valid
valid-name_of usd_bcv = refl
valid-name_of _ = refl

rate_of_valid : (c : Currency) → Currency.valid c ≡ true → (r : Rate) × (c ≡ name_of r)
unfolding Currency.valid
rate_of_valid c h =
    let is = λ (k : Currency) (e : (c == k) ≡ true). (eq_iff c k).0 e in
    elim (Bool-cases (c == Currency.eur_bcv)) [
      | inl e ↦ (eur_bcv, is Currency.eur_bcv e)
      | inr n1 ↦ elim (Bool-cases (c == Currency.usd_bcv)) [
        | inl e ↦ (usd_bcv, is Currency.usd_bcv e)
        | inr n2 ↦ elim (Bool-cases (c == Currency.usdt)) [
          | inl e ↦ (usdt, is Currency.usdt e)
          | inr n3 ↦ elim (Bool-cases (c == Currency.usdt_compra)) [
            | inl e ↦ (usdt_compra, is Currency.usdt_compra e)
            | inr n4 ↦ elim (Bool-cases (c == Currency.usdt_venta)) [
              | inl e ↦ (usdt_venta, is Currency.usdt_venta e)
              | inr n5 ↦ absurd (ground arith)
            ]
          ]
        ]
      ]
    ]

-- `Valid` accepts a text exactly when it is the name of a rate.
pub valid_iff : (c : Currency) → (Currency.valid c ≡ true) ↔ ((r : Rate) × (c ≡ name_of r))
valid_iff c = (rate_of_valid c, λ (r, e). rw e (valid-name_of r))

module _ {ℓ} {F : Type ℓ} where
  abbrev pub entry_at : Rate → AllRates F → RateEntry F
  entry_at usd_bcv a = a.usd_bcv
  entry_at eur_bcv a = a.eur_bcv
  entry_at usdt a = a.usdt
  entry_at usdt_compra a = a.usdt_compra
  entry_at usdt_venta a = a.usdt_venta

  -- A response about all rates, narrowed to one.
  abbrev pub narrow : Rate → Body F → Body F
  narrow r (all_rates a) = rate_entry (entry_at r a)
  narrow r b = b

module _ {ℓ} {F : Type ℓ} ⦃f : Float64 F⦄ where
  -- For the name of a rate, /rates/{currency} answers what /rates answers, status and errors
  -- included, narrowed to that rate's entry.
  pub get_rates_currency-get_rates :
      (h : Server F) (now : Time) (r : Rate)
      → let all = get_rates_handler h now in
        get_rates_currency h now (name_of r) ≡ record all { body = narrow r all.body }
  unfolding get_rates_currency get_rates_handler switch_entry Currency.valid
  get_rates_currency-get_rates h now usd_bcv = ground arith
  get_rates_currency-get_rates h now _ = ground arith

  -- What makes the entry of a rate stale: the store has no row of it, its provider fails, or its row
  -- is older than the threshold.
  pub data IsStaleEntry (latest : Dict (Db.HistoryEntry F)) (s : State F) (now : Time) (r : Rate)
      : Type ℓ where
    missing : lookup (name_of r) latest ≡ none → IsStaleEntry latest s now r
    failing : (rate_of r s).provider_failing ≡ true → IsStaleEntry latest s now r
    old :
        (e : Db.HistoryEntry F)
        → lookup (name_of r) latest ≡ some e
        → e.recorded_at.ns + threshold_of r < now.ns
        → IsStaleEntry latest s now r

  old_entry :
      (e : Db.HistoryEntry F) (b : Bool) (n : ℕ) (now : Time)
      → n < 2 ^ 63 - 1
      → ((to_stored_rate_entry (some e) b n now).is_stale ≡ true)
        ↔ ((b ≡ true) ⊎ (e.recorded_at.ns + n < now.ns))
  unfolding to_stored_rate_entry
  old_entry e b n now h =
      let i = lt-sub_iff n now e.recorded_at h in
      (
        λ p. elim (Bool-cases b) [ inl t ↦ inl t | inr t ↦ inr (i.0 (ground arith)) ],
        λ q. elim q [ inl t ↦ rw t | inr o ↦ ground (arith, i.1 o) ],
      )

  entry-is_stale_iff :
      (latest : Dict (Db.HistoryEntry F)) (s : State F) (now : Time) (r : Rate)
      → ((to_stored_rate_entry
            (lookup (name_of r) latest)
            (rate_of r s).provider_failing
            (threshold_of r)
            now).is_stale
          ≡ true)
        ↔ IsStaleEntry latest s now r
  entry-is_stale_iff latest s now r = elim (Option-cases (lookup (name_of r) latest)) [
    | inl none_there ↦
        (λ e. missing none_there, λ i. rw none_there (unfold to_stored_rate_entry in refl))
    | inr (e, found) ↦ (
      λ p. elim ((old_entry e _ _ now (threshold_of-lt r)).0 (rw found at p)) [
        | inl fails ↦ failing fails
        | inr late ↦ old e found late
      ],
      λ i. rw found ((old_entry e _ _ now (threshold_of-lt r)).1 (reasons e found i)),
    )
  ]
    where
      reasons :
          (e : Db.HistoryEntry F)
          → lookup (name_of r) latest ≡ some e
          → IsStaleEntry latest s now r
          → ((rate_of r s).provider_failing ≡ true) ⊎ (e.recorded_at.ns + threshold_of r < now.ns)
      reasons e found (missing q) = absurd (cc)
      reasons e found (failing q) = inl q
      reasons e found (old e' q late) = inr (ground arith)

  all_entries-is_stale_iff :
      (latest : Dict (Db.HistoryEntry F)) (s : State F) (now : Time) (r : Rate)
      → ((entry_at r (all_entries latest now s)).is_stale ≡ true) ↔ IsStaleEntry latest s now r
  all_entries-is_stale_iff latest s now usd_bcv = entry-is_stale_iff latest s now usd_bcv
  all_entries-is_stale_iff latest s now eur_bcv = entry-is_stale_iff latest s now eur_bcv
  all_entries-is_stale_iff latest s now usdt = entry-is_stale_iff latest s now usdt
  all_entries-is_stale_iff latest s now usdt_compra = entry-is_stale_iff latest s now usdt_compra
  all_entries-is_stale_iff latest s now usdt_venta = entry-is_stale_iff latest s now usdt_venta

  -- If there is a store and it answers, /rates answers 200 with five entries, and an entry is
  -- marked stale exactly when the store has no row of its rate, the rate's provider fails, or the
  -- row is older than the rate's threshold.
  pub get_rates-is_stale_iff :
      (h : Server F) (now : Time) (store : Db.Store F) (latest : Dict (Db.HistoryEntry F))
      → h.store ≡ some store
      → store.get_latest_rates ≡ some latest
      → (a : AllRates F) × (get_rates_handler h now ≡ write_json status_ok (all_rates a))
        × ((r : Rate) → ((entry_at r a).is_stale ≡ true) ↔ IsStaleEntry latest h.app_state now r)
  unfolding get_rates_handler get_rates
  get_rates-is_stale_iff h now store latest e q = (
    all_entries latest now h.app_state,
    rw (e, q),
    all_entries-is_stale_iff latest h.app_state now,
  )
