-- ===== src/Provider/Localized.antt =====
-- `parseLocalizedNumber` of internal/provider/bcvProvider.go, on the codes of a text's characters.
-- `strconv.ParseFloat` is the argument `parse_float`, with `none` for its error.
pub mod Normal
use ve_xchange_api.Prelude.{
  ℕ, Bool, not, ◌&&◌, ◌||◌, Option, none, some, List, [], ◌∷◌, leb, ◌==◌, if◌then◌else◌,
}
use ve_xchange_api.Prelude.Result.{Result, ok, err}
use ve_xchange_api.Prelude.Float.{Float64, is_non_finite}

abbrev pub is_digit : ℕ → Bool
is_digit c = leb b'0' c && leb c b'9'

-- What `nonNumericCharacters`, [^0-9,.-], does not match.
unfoldable pub is_numeric : ℕ → Bool
is_numeric c = is_digit c || (c == b',') || (c == b'.') || (c == b'-')

-- `nonNumericCharacters.ReplaceAllString(raw, "")`
unfoldable pub keep_numeric : List ℕ → List ℕ
keep_numeric [] = []
keep_numeric (c ∷ cs) = let rest = keep_numeric cs in if is_numeric c then c ∷ rest else rest

-- `strings.Contains(s, ",")`
unfoldable pub contains : ℕ → List ℕ → Bool
contains x [] = Bool.false
contains x (c ∷ cs) = (c == x) || contains x cs

-- `strings.ReplaceAll(s, x, "")` and `strings.ReplaceAll(s, x, y)` for single characters.
unfoldable pub remove_all : ℕ → List ℕ → List ℕ
remove_all x [] = []
remove_all x (c ∷ cs) = let rest = remove_all x cs in if c == x then rest else c ∷ rest

unfoldable pub replace_all : ℕ → ℕ → List ℕ → List ℕ
replace_all x y [] = []
replace_all x y (c ∷ cs) = (if c == x then y else c) ∷ replace_all x y cs

-- The decimal comma becomes a point, and the points that group the digits go.
unfoldable pub normalize : List ℕ → List ℕ
normalize s =
    if contains b',' s then replace_all b',' b'.' (remove_all b'.' s) else remove_all b',' s

pub data NumberError : Type 0 where
  missing_numeric_value unparsable invalid_value : NumberError

module _ {ℓ} {F : Type ℓ} ⦃f : Float64 F⦄ where
  abbrev pub check_value : F → Result NumberError F
  check_value value =
      if f.le value f.nought || is_non_finite value then err invalid_value else ok value

  abbrev pub parse_normalized : (List ℕ → Option F) → List ℕ → Result NumberError F
  parse_normalized parse_float [] = err missing_numeric_value
  parse_normalized parse_float (c ∷ cs) = elim (parse_float (normalize (c ∷ cs))) [
    | none ↦ err unparsable
    | some value ↦ check_value value
  ]

  unfoldable pub parse_localized_number : (List ℕ → Option F) → List ℕ → Result NumberError F
  parse_localized_number parse_float raw = parse_normalized parse_float (keep_numeric raw)
