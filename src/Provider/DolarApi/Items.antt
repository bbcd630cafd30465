-- ===== src/Provider/DolarApi/Items.antt =====
-- Which items a response of DolarAPI takes.
use Prim.Native.String.{String}
use text.Mathlib.Text.{◌==◌ as str_eq}
use text.Mathlib.TextEquality.{eq_iff}
use ve_xchange_api.Prelude.{
  false, ◌≡◌, refl, ◌∙◌, ap, sym, Bool-cases, inl, inr, Option, none, some, List, [], ◌∷◌, arith,
  if◌then◌else◌,
}
use ve_xchange_api.Prelude.Dict.{Dict, lookup, insert, lookup-insert}
use ve_xchange_api.Prelude.Result.{Result, ok, succeeded}
use ve_xchange_api.Prelude.Float.{Float64, is_non_finite}
use ve_xchange_api.Rates.{PriceResponse}
use ve_xchange_api.Provider.Retry.{with_retry}
use ve_xchange_api.Provider.Retry.Source.{with_retry-source}
use ve_xchange_api.Provider.Http.{Http}
use ve_xchange_api.Provider.DolarApi.{
  DolarApiCurrencyItem, DolarApiProvider, store_item, store_items, check_values, read_items,
  ask_items, get_prices,
}

module _ {ℓ} {F : Type ℓ} where
  -- The price of the last item with a name, or `before` if there is none.
  abbrev pub last_price : String → List (DolarApiCurrencyItem F) → Option F → Option F
  last_price name [] before = before
  last_price name (x ∷ xs) before =
      last_price name xs (if str_eq x.moneda name then some x.promedio else before)

  -- The two keys of a map, as an item leaves them.
  lookup-store_item :
      (x : DolarApiCurrencyItem F) (values : Dict F)
      → (lookup "USD_BCV" (store_item x values)
          ≡ (if str_eq x.moneda "USD" then some x.promedio else lookup "USD_BCV" values))
        × (lookup "EUR_BCV" (store_item x values)
            ≡ (if str_eq x.moneda "EUR" then some x.promedio else lookup "EUR_BCV" values))
  lookup-store_item x values = elim (Bool-cases (str_eq x.moneda "USD")) [
    | inl usd ↦ rw ((eq_iff x.moneda "USD").0 usd) (
      lookup-insert "USD_BCV" "USD_BCV" x.promedio values,
      lookup-insert "USD_BCV" "EUR_BCV" x.promedio values,
    )
    | inr other ↦ elim (Bool-cases (str_eq x.moneda "EUR")) [
      | inl eur ↦ rw ((eq_iff x.moneda "EUR").0 eur) (
        lookup-insert "EUR_BCV" "USD_BCV" x.promedio values,
        lookup-insert "EUR_BCV" "EUR_BCV" x.promedio values,
      )
      | inr none_of_them ↦ rw (other, none_of_them) (refl, refl)
    ]
  ]

  lookup-store_items :
      (items : List (DolarApiCurrencyItem F)) (values : Dict F)
      → (lookup "USD_BCV" (store_items items values)
          ≡ last_price "USD" items (lookup "USD_BCV" values))
        × (lookup "EUR_BCV" (store_items items values)
            ≡ last_price "EUR" items (lookup "EUR_BCV" values))
  unfolding store_items
  lookup-store_items [] values = (refl, refl)
  lookup-store_items (x ∷ xs) values =
      let (usd, eur) = lookup-store_items xs (store_item x values) in
      let (u, e) = lookup-store_item x values in
      (usd ∙ ap (last_price "USD" xs) u, eur ∙ ap (last_price "EUR" xs) e)

  -- The maps that items leave.
  data IsQuotes : Dict F → Type ℓ where
    nothing : IsQuotes []
    only_usd : (u : F) → IsQuotes (("USD_BCV", u) ∷ [])
    only_eur : (e : F) → IsQuotes (("EUR_BCV", e) ∷ [])
    usd_first : (u e : F) → IsQuotes (("USD_BCV", u) ∷ ("EUR_BCV", e) ∷ [])
    eur_first : (u e : F) → IsQuotes (("EUR_BCV", e) ∷ ("USD_BCV", u) ∷ [])

  insert-IsQuotes :
      {values : Dict F} (v : F)
      → IsQuotes values
      → IsQuotes (insert "USD_BCV" v values) × IsQuotes (insert "EUR_BCV" v values)
  unfolding insert
  insert-IsQuotes v nothing = (only_usd v, only_eur v)
  insert-IsQuotes v (only_usd u) = (only_usd v, usd_first u v)
  insert-IsQuotes v (only_eur e) = (eur_first v e, only_eur v)
  insert-IsQuotes v (usd_first u e) = (usd_first v e, usd_first u v)
  insert-IsQuotes v (eur_first u e) = (eur_first v e, eur_first u v)

  store_item-IsQuotes :
      (x : DolarApiCurrencyItem F) {values : Dict F}
      → IsQuotes values
      → IsQuotes (store_item x values)
  store_item-IsQuotes x q = elim (Bool-cases (str_eq x.moneda "USD")) [
    | inl usd ↦ rw usd (insert-IsQuotes x.promedio q).0
    | inr other ↦ elim (Bool-cases (str_eq x.moneda "EUR")) [
      | inl eur ↦ rw (other, eur) (insert-IsQuotes x.promedio q).1
      | inr none_of_them ↦ rw (other, none_of_them) q
    ]
  ]

  store_items-IsQuotes :
      (items : List (DolarApiCurrencyItem F)) {values : Dict F}
      → IsQuotes values
      → IsQuotes (store_items items values)
  unfolding store_items
  store_items-IsQuotes [] q = q
  store_items-IsQuotes (x ∷ xs) q = store_items-IsQuotes xs (store_item-IsQuotes x q)

module _ {ℓ} {F : Type ℓ} ⦃f : Float64 F⦄ where
  -- Both prices are positive and finite.
  pub record Accepted (values : Dict F) : Type ℓ where
    pub usd : F
    pub eur : F
    pub has_usd : lookup "USD_BCV" values ≡ some usd
    pub has_eur : lookup "EUR_BCV" values ≡ some eur
    pub usd_positive : f.le usd f.nought ≡ false
    pub eur_positive : f.le eur f.nought ≡ false
    pub usd_finite : is_non_finite usd ≡ false
    pub eur_finite : is_non_finite eur ≡ false

  accepted :
      {values : Dict F} {usd eur : F}
      → lookup "USD_BCV" values ≡ some usd
      → lookup "EUR_BCV" values ≡ some eur
      → (f.le usd f.nought ≡ false)
        × (f.le eur f.nought ≡ false)
        × (is_non_finite usd ≡ false)
        × (is_non_finite eur ≡ false)
      → Accepted values
  accepted {usd = usd} {eur = eur} u v (a, b, c, d) = record {
    usd = usd;
    eur = eur;
    has_usd = u;
    has_eur = v;
    usd_positive = a;
    eur_positive = b;
    usd_finite = c;
    eur_finite = d;
  }

module _ {ℓ} {F B E : Type ℓ} ⦃f : Float64 F⦄ where
  check_values-Accepted :
      {values : Dict F} (resp : PriceResponse F)
      → IsQuotes values
      → check_values {B = B} {E = E} values ≡ ok resp
      → Accepted values × (resp.values ≡ values)
  unfolding lookup
  check_values-Accepted resp nothing e = absurd (ground arith)
  check_values-Accepted resp (only_usd u) e = absurd (ground arith)
  check_values-Accepted resp (only_eur v) e = absurd (ground arith)
  check_values-Accepted resp (usd_first u v) e = (accepted refl refl (ground arith), ground arith)
  check_values-Accepted resp (eur_first u v) e = (accepted refl refl (ground arith), ground arith)

  read_items-Accepted :
      (items : List (DolarApiCurrencyItem F)) (resp : PriceResponse F)
      → read_items {B = B} {E = E} items ≡ ok resp
      → (a : Accepted resp.values) × (last_price "USD" items none ≡ some a.usd)
        × (last_price "EUR" items none ≡ some a.eur)
  unfolding read_items lookup
  read_items-Accepted items resp e =
      let (a, same) = check_values-Accepted resp (store_items-IsQuotes items nothing) e in
      let (u, v) = lookup-store_items items [] in rw same (a, sym u ∙ a.has_usd, sym v ∙ a.has_eur)

module _ {ℓ} {F W B E : Type ℓ} ⦃f : Float64 F⦄ (h : Http W B E)
    (decode : B → Result E (List (DolarApiCurrencyItem F))) (p : DolarApiProvider) where
  -- A response of DolarAPI comes from the items of one answer, after which nothing else happens. There
  -- are a dollar and a euro among them, of each the last price is positive and finite, and the response
  -- has those two prices.
  pub get_prices-Accepted :
      (w w' : W) (resp : PriceResponse F)
      → get_prices h decode p w ≡ (ok resp, w')
      → (v : W) × (items : List (DolarApiCurrencyItem F)) × (ask_items h decode p v
          ≡ (ok items, w'))
        × (a : Accepted resp.values) × (last_price "USD" items none ≡ some a.usd)
        × (last_price "EUR" items none ≡ some a.eur)
  unfolding get_prices
  get_prices-Accepted w w' resp e =
      let called = with_retry h.sleep (ask_items h decode p) 3 p.retry_base_delay w in
      let (items, q) = succeeded called.0 (λ x q. ground arith) in
      let read : read_items {B = B} {E = E} items ≡ ok resp = ground arith in
      let (v, answered) =
        with_retry-source h.sleep (ask_items h decode p) 3 p.retry_base_delay w w' items
          (ground arith) in
      let (a, usd, eur) = read_items-Accepted items resp read in (v, items, answered, a, usd, eur)
