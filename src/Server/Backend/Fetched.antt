-- ===== src/Server/Backend/Fetched.antt =====
-- What a fetch of BCV's rates leaves in the state and in the table.
use Prim.Native.String.{String}
use ve_xchange_api.Prelude.{
  ℕ, ◌≡◌, refl, ◌∙◌, Bool, true, false, [], ◌∷◌, ◌++◌, ◌⊎◌, Option-cases, none, inl, inr, arith,
}
use mathlib.Core.List.{append_assoc}
use ve_xchange_api.Prelude.Dict.{lookup}
use ve_xchange_api.Prelude.Float.{Float64}
use ve_xchange_api.Prelude.Result.{ok, Result-cases}
use ve_xchange_api.GoTime.{Time, date, utc}
use ve_xchange_api.Rates.{PriceResponse}
use ve_xchange_api.State.{update_bcv_price}
use ve_xchange_api.Api.Currency
use ve_xchange_api.Worker.Job.{fetch, validate}
use ve_xchange_api.Worker.Job.Done.{recovered, fetch-true}
use ve_xchange_api.Db.Table.{Row, insert_rate}
use ve_xchange_api.Provider.Http.{Http}
use ve_xchange_api.Provider.Binance.{Codec}
use ve_xchange_api.Provider.Bcv.{new_bcv_provider}
use ve_xchange_api.Provider.Bcv as Bcv
use ve_xchange_api.Provider.Bcv.Page.{Goquery, bcv_response}
use ve_xchange_api.Provider.Bcv.Published.{Published, get_prices-Published}
use ve_xchange_api.Provider.Publication.{validate_bcv_publication}
use ve_xchange_api.Server.{utc_minus_4, World, world_now, bcv_job, apply_bcv}
use ve_xchange_api.Server.Backend.{Backend, backend}

abbrev pub raw_row {ℓ} : {F : Type ℓ} → String → F → Time → Row F
raw_row c v t = record { currency = c; value = v; recorded_at = t; is_average = false }

module _ {ℓ} {F W B E D S : Type ℓ} ⦃f : Float64 F⦄ (h : Http W B E) (g : Goquery F B E D S)
    (codec : Codec F B E) (now : W → Time × W) (takes_row : W → Bool × W) where
  -- The table after `Apply`, if the database takes every row.
  table-apply_bcv :
      (usd eur : F) (t : Time) (w : World F (Backend F W))
      → w.has_store ≡ true
      → ((v : W) → (takes_row v).0 ≡ true)
      → let u = (now (now w.outside.net).1).0 in
        (apply_bcv (backend h g codec now takes_row) (bcv_response usd eur t) w).outside.table
        ≡ w.outside.table ++ (raw_row Currency.usd_bcv usd u ∷ raw_row Currency.eur_bcv eur u ∷ [])
  unfolding apply_bcv insert_rate lookup
  table-apply_bcv usd eur t w stored takes =
      let u = (now (now w.outside.net).1).0 in
      let v1 = (now (now w.outside.net).1).1 in
      ground (
        arith,
        takes v1,
        takes (takes_row v1).1,
        append_assoc w.outside.table (raw_row Currency.usd_bcv usd u ∷ [])
            (raw_row Currency.eur_bcv eur u ∷ []),
      )

  -- What is asked and checked before `Apply` leaves the table, and whether there is a store.
  checked :
      (scheduled : Bool) (c : ℕ) (w : World F (Backend F W))
      → let o = backend h g codec now takes_row in
        let (answer, w1) = (bcv_job o).get_prices w in
        let w3 =
          recovered
            (world_now o)
            (bcv_job o)
            c
            (validate (world_now o) (bcv_job o) scheduled answer w1).1 in
        (w3.outside.table ≡ w.outside.table) × (w3.has_store ≡ w.has_store)
  checked scheduled c w = (ground arith, ground arith)

  bcv_answer :
      (w : World F (Backend F W)) (resp : PriceResponse F)
      → ((bcv_job (backend h g codec now takes_row)).get_prices w).0 ≡ ok resp
      → (Bcv.get_prices h g new_bcv_provider w.outside.net).0 ≡ ok resp
  bcv_answer w resp e = elim (Result-cases (Bcv.get_prices h g new_bcv_provider w.outside.net).0) [
    | inl (a, q) ↦ ground arith
    | inr (x, q) ↦ absurd (ground arith)
  ]

  -- A scheduled fetch lets a response through only if the publication check does.
  published_on_time :
      (scheduled : Bool) (w : World F (Backend F W)) (resp : PriceResponse F)
      → let o = backend h g codec now takes_row in
        (validate (world_now o) (bcv_job o) scheduled (ok resp) w).0 ≡ ok resp
        → (scheduled ≡ false)
          ⊎ ((u : W) × (validate_bcv_publication resp (now u).0 utc_minus_4 ≡ none))
  published_on_time false w resp e = inl refl
  published_on_time true w resp e =
      let t = (now w.outside.net).0 in
      elim (Option-cases (validate_bcv_publication resp t utc_minus_4)) [
        | inl accepted ↦ inr (w.outside.net, accepted)
        | inr (x, refused) ↦ absurd (ground arith)
      ]

  -- What `Apply` does with a response of BCV.
  applied :
      (resp : PriceResponse F) (q : Published resp) (w : World F (Backend F W))
      → w.has_store ≡ true
      → ((v : W) → (takes_row v).0 ≡ true)
      → let w' = apply_bcv (backend h g codec now takes_row) resp w in
        (w'.app_state.usd_bcv.value ≡ q.usd)
        × (w'.app_state.eur_bcv.value ≡ q.eur)
        × ((v : W) × (w'.outside.table
              ≡ w.outside.table
                ++ (raw_row Currency.usd_bcv q.usd (now v).0
                    ∷ raw_row Currency.eur_bcv q.eur (now v).0
                    ∷ [])))
  unfolding apply_bcv update_bcv_price lookup
  applied resp q w stored takes = rw q.is_response (
    refl,
    refl,
    ((now w.outside.net).1, table-apply_bcv q.usd q.eur (date q.effective 0 0 utc) w stored takes),
  )

  -- Where the database takes every row, a fetch of BCV's rates that succeeds has had a response of BCV's
  -- page, with a positive and finite rate for the dollar and for the euro, which the publication check
  -- has accepted at a time that the clock gave if the fetch is a scheduled one; these are then the values of
  -- the two rates in the state, and the table has two rows more, the dollar's before the euro's, which
  -- are no averages, have these values and bear one time that the clock gave.
  pub fetch-bcv_job :
      (scheduled : Bool) (c : ℕ) (w : World F (Backend F W))
      → w.has_store ≡ true
      → ((v : W) → (takes_row v).0 ≡ true)
      → let o = backend h g codec now takes_row in
        let (done, c', w') = fetch (world_now o) (bcv_job o) scheduled c w in
        done ≡ true
        → (resp : PriceResponse F) × (q : Published resp) × ((Bcv.get_prices h g new_bcv_provider
              w.outside.net).0
            ≡ ok resp)
          × ((scheduled ≡ false)
              ⊎ ((u : W) × (validate_bcv_publication resp (now u).0 utc_minus_4 ≡ none)))
          × (w'.app_state.usd_bcv.value ≡ q.usd)
          × (w'.app_state.eur_bcv.value ≡ q.eur)
          × ((v : W) × (w'.outside.table
                ≡ w.outside.table
                  ++ (raw_row Currency.usd_bcv q.usd (now v).0
                      ∷ raw_row Currency.eur_bcv q.eur (now v).0
                      ∷ [])))
  fetch-bcv_job scheduled c w stored takes done =
      let o = backend h g codec now takes_row in
      let (resp, c', answered, (passed, ends)) =
        fetch-true (world_now o) (bcv_job o) scheduled c w done in
      let got = bcv_answer w resp answered in
      let w3 =
        recovered (world_now o) (bcv_job o) c
          (validate (world_now o) (bcv_job o) scheduled ((bcv_job o).get_prices w).0
            ((bcv_job o).get_prices w).1).1 in
      let (same_table, same_store) = checked scheduled c w in
      let (q, filled) =
        get_prices-Published h g new_bcv_provider w.outside.net
          (Bcv.get_prices h g new_bcv_provider w.outside.net).1 resp (now w.outside.net).0
          w.app_state (ground arith) in
      let (usd, eur, (v, rows)) = applied resp q w3 (same_store ∙ stored) takes in
      let w1 = ((bcv_job o).get_prices w).1 in
      let on_time = published_on_time scheduled w1 resp (rw answered at passed) in
      (resp, q, got, on_time, rw ends usd, rw ends eur, (v, rw ends (rows ∙ rw same_table refl)))
