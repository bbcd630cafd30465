-- ===== src/Provider/Localized/Normal.antt =====
-- The normal form of a number's text.
use ve_xchange_api.Prelude.{
  ℕ, ◌≡◌, ◌≢◌, refl, true, false, ◌||◌, Bool-cases, inl, inr, Option, none, some, List, [], ◌∷◌,
  ◌++◌, arith, ◌==◌,
}
use ve_xchange_api.Prelude.Result.{Result, ok, err}
use ve_xchange_api.Prelude.Float.{Float64, is_non_finite}
use ve_xchange_api.Provider.Localized.{
  NumberError, unparsable, check_value, is_digit, is_numeric, keep_numeric, contains, remove_all,
  replace_all, normalize, parse_normalized, parse_localized_number,
}

contains-remove_all : (x y : ℕ) (s : List ℕ) → x ≢ y → contains x (remove_all y s) ≡ contains x s
unfolding contains remove_all
contains-remove_all x y [] h = refl
contains-remove_all x y (c ∷ cs) h = ground (arith, contains-remove_all x y cs h)

contains-replace_all : (x y : ℕ) (s : List ℕ) → x ≢ y → contains x (replace_all x y s) ≡ false
unfolding contains replace_all
contains-replace_all x y [] h = refl
contains-replace_all x y (c ∷ cs) h = ground (arith, contains-replace_all x y cs h)

remove_all-absent : (x : ℕ) (s : List ℕ) → contains x s ≡ false → remove_all x s ≡ s
unfolding contains remove_all
remove_all-absent x [] h = refl
remove_all-absent x (c ∷ cs) h = ground (arith, remove_all-absent x cs)

contains_self-remove_all : (x : ℕ) (s : List ℕ) → contains x (remove_all x s) ≡ false
unfolding contains remove_all
contains_self-remove_all x [] = refl
contains_self-remove_all x (c ∷ cs) = ground (arith, contains_self-remove_all x cs)

-- No comma is left.
pub contains-normalize : (s : List ℕ) → contains b',' (normalize s) ≡ false
unfolding normalize
contains-normalize s = elim (Bool-cases (contains b',' s)) [
  | inl e ↦ rw e (contains-replace_all b',' b'.' (remove_all b'.' s) (omega arith))
  | inr e ↦ rw e (contains_self-remove_all b',' s)
]

-- A text in normal form stays as it is.
pub normalize_idem : (s : List ℕ) → normalize (normalize s) ≡ normalize s
unfolding normalize
normalize_idem s =
    rw (contains-normalize s) (remove_all-absent b',' (normalize s) (contains-normalize s))

-- Digits with points among them, and digits alone.
abbrev pub IsGrouped : List ℕ → Type 0
IsGrouped [] = Unit
IsGrouped (c ∷ cs) = (is_digit c || (c == b'.') ≡ true) × IsGrouped cs

abbrev pub IsDigits : List ℕ → Type 0
IsDigits [] = Unit
IsDigits (c ∷ cs) = (is_digit c ≡ true) × IsDigits cs

-- No character that a number has.
abbrev pub IsNoise : List ℕ → Type 0
IsNoise [] = Unit
IsNoise (c ∷ cs) = (is_numeric c ≡ false) × IsNoise cs

-- A localized number with other text around it.
abbrev pub localized : List ℕ → List ℕ → List ℕ → List ℕ → List ℕ
localized before int dec after = before ++ (int ++ (b',' ∷ (dec ++ after)))

module _ {ℓ} {F : Type ℓ} ⦃f : Float64 F⦄ where
  -- What becomes of the answer of `strconv.ParseFloat`.
  abbrev pub outcome : Option F → Result NumberError F
  outcome none = err unparsable
  outcome (some v) = check_value v

  -- If a number is returned, it is positive and finite, and it is what `ParseFloat` makes of the
  -- text in normal form.
  pub parse_localized_number_ok :
      (parse_float : List ℕ → Option F) (raw : List ℕ) (v : F)
      → parse_localized_number parse_float raw ≡ ok v
      → (f.le v f.nought ≡ false)
        × (is_non_finite v ≡ false)
        × (parse_float (normalize (keep_numeric raw)) ≡ some v)
  unfolding parse_localized_number
  parse_localized_number_ok parse_float raw v e = go (keep_numeric raw) e
    where
      go :
          (s : List ℕ)
          → parse_normalized parse_float s ≡ ok v
          → (f.le v f.nought ≡ false)
            × (is_non_finite v ≡ false)
            × (parse_float (normalize s) ≡ some v)
      go [] h = absurd (cc)
      go (c ∷ cs) h = ground arith
