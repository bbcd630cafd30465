-- ===== src/Provider/Bcv/Published.antt =====
-- What a response of BCV says, and what it leaves in the state.
use ve_xchange_api.Prelude.{ℕ, ◌≡◌, ap, ◌∙◌, false, arith, some, none, List}
use ve_xchange_api.Prelude.Result.{Result, ok, succeeded, ◌>>=◌}
use ve_xchange_api.Prelude.Action.{wrap_err}
use ve_xchange_api.Prelude.Dict.{lookup}
use ve_xchange_api.Prelude.Float.{Float64, is_non_finite}
use ve_xchange_api.GoTime.{Time, CivilDate, date, utc}
use ve_xchange_api.GoTime.Months.{IsValid}
use ve_xchange_api.Rates.{PriceResponse}
use ve_xchange_api.State.{State, update_bcv_price}
use ve_xchange_api.Provider.Localized.{NumberError, parse_localized_number}
use ve_xchange_api.Provider.Localized.Normal.{parse_localized_number_ok}
use ve_xchange_api.Provider.EffectiveDate.{DateError, parse_effective_date}
use ve_xchange_api.Provider.EffectiveDate.Check.{parse_effective_date-Yields}
use ve_xchange_api.Provider.Retry.Source.{with_retry-source}
use ve_xchange_api.Provider.Http.{Http}
use ve_xchange_api.Provider.Bcv.Page.{
  Goquery, TextError, PageError, no_usd, no_eur, no_date, bad_usd, bad_eur, bad_date, bcv_response,
  rate_text, effective_date_text, parse_bcv_rates,
}
use ve_xchange_api.Provider.Bcv.{BcvProvider, with_headers, ask_page, get_prices}

module _ {ℓ} {F : Type ℓ} ⦃f : Float64 F⦄ where
  -- Two positive and finite rates, and the midnight in UTC of a date that exists.
  pub record Published (resp : PriceResponse F) : Type ℓ where
    pub usd : F
    pub eur : F
    pub usd_positive : f.le usd f.nought ≡ false
    pub eur_positive : f.le eur f.nought ≡ false
    pub usd_finite : is_non_finite usd ≡ false
    pub eur_finite : is_non_finite eur ≡ false
    pub effective : CivilDate
    pub exists : IsValid effective
    pub is_response : resp ≡ bcv_response usd eur (date effective 0 0 utc)

module _ {ℓ} {F : Type ℓ} where
  -- The chain of `parseBCVRates` over the results of its calls.
  assembled :
      (usd_text eur_text date_text : Result TextError (List ℕ))
      → (List ℕ → Result NumberError F)
      → (List ℕ → Result DateError Time)
      → Result PageError (PriceResponse F)
  assembled usd_text eur_text date_text number effective = do
    a ← wrap_err no_usd usd_text
    b ← wrap_err no_eur eur_text
    c ← wrap_err no_date date_text
    usd ← wrap_err bad_usd (number a)
    eur ← wrap_err bad_eur (number b)
    t ← wrap_err bad_date (effective c)
    ok (bcv_response usd eur t)

  assembled-eq_ok :
      (r1 r2 r3 : Result TextError (List ℕ)) (number : List ℕ → Result NumberError F)
      (effective : List ℕ → Result DateError Time) (resp : PriceResponse F)
      → assembled r1 r2 r3 number effective ≡ ok resp
      → (a b c : List ℕ) × (usd eur : F) × (t : Time) × (number a ≡ ok usd)
        × (number b ≡ ok eur)
        × (effective c ≡ ok t)
        × (resp ≡ bcv_response usd eur t)
  unfolding assembled
  assembled-eq_ok r1 r2 r3 number effective resp e =
      let (a, q1) = succeeded r1 (λ x q. ground arith) in
      let (b, q2) = succeeded r2 (λ x q. ground arith) in
      let (c, q3) = succeeded r3 (λ x q. ground arith) in
      let (usd, q4) = succeeded (number a) (λ x q. ground arith) in
      let (eur, q5) = succeeded (number b) (λ x q. ground arith) in
      let (t, q6) = succeeded (effective c) (λ x q. ground arith) in
      (a, b, c, usd, eur, t, q4, q5, q6, ground arith)

module _ {ℓ} {F W B E D S : Type ℓ} ⦃f : Float64 F⦄ (h : Http W B E) (g : Goquery F B E D S)
    (p : BcvProvider) where
  parse_bcv_rates-Published :
      (doc : D) (resp : PriceResponse F) → parse_bcv_rates g doc ≡ ok resp → Published resp
  unfolding parse_bcv_rates assembled
  parse_bcv_rates-Published doc resp e =
      let (usd_text, eur_text, date_text, usd, eur, effective, q4, q5, q6, r) =
        assembled-eq_ok (rate_text g doc "#dolar") (rate_text g doc "#euro")
          (effective_date_text g doc) (parse_localized_number g.parse_float)
          (parse_effective_date g.unicode_lower) resp e in
      let a = parse_localized_number_ok g.parse_float usd_text usd q4 in
      let b = parse_localized_number_ok g.parse_float eur_text eur q5 in
      let y = parse_effective_date-Yields g.unicode_lower date_text effective q6 in
      record {
        usd = usd;
        eur = eur;
        usd_positive = a.0;
        eur_positive = b.0;
        usd_finite = a.1;
        eur_finite = b.1;
        effective = _;
        exists = y.exists;
        is_response = r ∙ ap (bcv_response usd eur) y.is_midnight;
      }

  ask_page-Published :
      (w w' : W) (resp : PriceResponse F) → ask_page h g p w ≡ (ok resp, w') → Published resp
  unfolding ask_page
  ask_page-Published w w' resp e =
      let (req, q1) = succeeded (h.new_request "GET" p.base_url none) (λ x q. ground arith) in
      let (page, q2) = succeeded (h.send (with_headers h g p req) w).0 (λ x q. ground arith) in
      let (doc, q3) = succeeded (g.new_document page.body) (λ x q. ground arith) in
      parse_bcv_rates-Published doc resp (ground arith)

  -- A response of BCV has a positive and finite rate for the dollar and for the euro and, as its
  -- effective date, the midnight in UTC of a date that exists; and it fills both rates of the state. No
  -- flag and no other rate changes.
  pub get_prices-Published :
      (w w' : W) (resp : PriceResponse F) (now : Time) (s : State F)
      → get_prices h g p w ≡ (ok resp, w')
      → (q : Published resp) × (update_bcv_price now s resp ≡ record s {
        usd_bcv = record (s.usd_bcv) { value = q.usd; last_updated = some now };
        eur_bcv = record (s.eur_bcv) { value = q.eur; last_updated = some now };
      })
  unfolding get_prices update_bcv_price lookup
  get_prices-Published w w' resp now s e =
      let (v, called) =
        with_retry-source h.sleep (ask_page h g p) 3 p.retry_base_delay w w' resp e in
      let q = ask_page-Published v w' resp called in (q, rw q.is_response)
