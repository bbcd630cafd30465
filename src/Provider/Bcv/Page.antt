-- ===== src/Provider/Bcv/Page.antt =====
-- `parseBCVRates`, `rateText` and `effectiveDateText` of internal/provider/bcvProvider.go. The library
-- goquery is an argument: documents `D` and selections `S`; a text is the codes of its characters.
use Prim.Native.String.{String}
use ve_xchange_api.Prelude.{
  ℕ, Bool, ◌||◌, ◌&&◌, Option, some, List, [], ◌∷◌, ◌==◌, leb, if◌then◌else◌,
}
use ve_xchange_api.Prelude.Result.{Result, ok, err, ◌>>=◌}
use ve_xchange_api.Prelude.Action.{wrap_err}
use ve_xchange_api.Prelude.Float.{Float64}
use ve_xchange_api.GoTime.{Time}
use ve_xchange_api.Rates.{PriceResponse}
use ve_xchange_api.Provider.Localized.{NumberError, parse_localized_number}
use ve_xchange_api.Provider.EffectiveDate.{DateError, parse_effective_date, is_empty}

pub record Goquery {ℓ} (F B E D S : Type ℓ) : Type ℓ where
  -- goquery.NewDocumentFromReader
  pub new_document : B → Result E D
  -- `doc.Find` and `selection.Find`
  pub find : D → String → S
  pub find_in : S → String → S
  pub first : S → S
  pub length : S → ℕ
  pub text : S → List ℕ
  -- strconv.ParseFloat, and strings.ToLower outside of ASCII
  pub parse_float : List ℕ → Option F
  pub unicode_lower : ℕ → ℕ

-- unicode.IsSpace
abbrev pub is_unicode_space : ℕ → Bool
is_unicode_space c =
    (leb 9 c && leb c 13)
    || (c == 0x20)
    || (c == 0x85)
    || (c == 0xa0)
    || (c == 0x1680)
    || (leb 0x2000 c && leb c 0x200a)
    || (c == 0x2028)
    || (c == 0x2029)
    || (c == 0x202f)
    || (c == 0x205f)
    || (c == 0x3000)

unfoldable pub drop_spaces : List ℕ → List ℕ
drop_spaces [] = []
drop_spaces (c ∷ cs) = let later = drop_spaces cs in if is_unicode_space c then later else c ∷ cs

unfoldable pub reversed : List ℕ → List ℕ → List ℕ
reversed [] acc = acc
reversed (c ∷ cs) acc = reversed cs (c ∷ acc)

-- strings.TrimSpace
unfoldable pub trim_space : List ℕ → List ℕ
trim_space s = reversed (drop_spaces (reversed (drop_spaces s) [])) []

pub data TextError : Type 0 where
  missing_container empty_container : String → TextError

pub data PageError : Type 0 where
  no_usd no_eur no_date : TextError → PageError
  bad_usd bad_eur : NumberError → PageError
  bad_date : DateError → PageError

abbrev pub bcv_response {ℓ} : {F : Type ℓ} → F → F → Time → PriceResponse F
bcv_response usd eur effective_date = record {
  values = ("USD_BCV", usd) ∷ ("EUR_BCV", eur) ∷ [];
  effective_date = some effective_date;
}

module _ {ℓ} {F B E D S : Type ℓ} (g : Goquery F B E D S) where
  unfoldable pub rate_text : D → String → Result TextError (List ℕ)
  rate_text doc selector =
      let container = g.first (g.find doc selector) in
      let strong = trim_space (g.text (g.first (g.find_in container "strong"))) in
      let value = if is_empty strong then trim_space (g.text container) else strong in
      if g.length container == 0
      then err (missing_container selector)
      else if is_empty value
      then err (empty_container selector)
      else ok value

  unfoldable pub effective_date_text : D → Result TextError (List ℕ)
  effective_date_text doc =
      let date_text =
        trim_space (g.text (g.first (g.find doc "#dolar ~ .dinpro .date-display-single"))) in
      if is_empty date_text then rate_text doc "#fecha" else ok date_text

  module _ ⦃f : Float64 F⦄ where
    unfoldable pub parse_bcv_rates : D → Result PageError (PriceResponse F)
    parse_bcv_rates doc = do
      usd_text ← wrap_err no_usd (rate_text doc "#dolar")
      eur_text ← wrap_err no_eur (rate_text doc "#euro")
      date_text ← wrap_err no_date (effective_date_text doc)
      usd ← wrap_err bad_usd (parse_localized_number g.parse_float usd_text)
      eur ← wrap_err bad_eur (parse_localized_number g.parse_float eur_text)
      effective_date ← wrap_err bad_date (parse_effective_date g.unicode_lower date_text)
      ok (bcv_response usd eur effective_date)
