-- ===== src/Provider/EffectiveDate.antt =====
-- `parseEffectiveDate` of internal/provider/bcvProvider.go, on the codes of a text's characters. What
-- `strings.ToLower` does outside of ASCII is the argument `unicode_lower`.
--
-- The pattern (?i)(\d{1,2})\s+([[:alpha:]]+)\s+(\d{4}) is matched by taking as much as each part can
-- take. That is what the expression does, since no part can begin with a character that the part
-- before it could still take. Under (?i) the letters include U+017F and U+212A, which fold to s and k.
pub mod Check
pub mod Search
pub mod Written
use Prim.Native.Char.{code}
use Prim.Native.String.{String}
use ve_xchange_api.Prelude.{
  ℕ, zero, suc, ◌+◌, ◌-◌, ◌*◌, Bool, true, false, not, ◌&&◌, ◌||◌, Option, none, some, List, [],
  ◌∷◌, leb, ◌==◌, if◌then◌else◌,
}
use ve_xchange_api.Prelude.Result.{Result, ok, err}
use ve_xchange_api.GoTime.{Time, CivilDate, civil, absolute_year, utc, date, date_of}
use ve_xchange_api.GoTime.DateOnly.{is_digit}
use ve_xchange_api.Provider.Publication.{differs}

-- The codes of a text's characters.
abbrev pub codes : String → List ℕ
codes String.[] = []
codes (String.◌∷◌ c s) = code c ∷ codes s

unfoldable pub is_space : ℕ → Bool
is_space c = (c == 9) || (c == 10) || (c == 12) || (c == 13) || (c == 32)

unfoldable pub is_alpha : ℕ → Bool
is_alpha c =
    (leb b'a' c && leb c b'z') || (leb b'A' c && leb c b'Z') || (c == 0x17f) || (c == 0x212a)

unfoldable pub to_lower : (ℕ → ℕ) → List ℕ → List ℕ
to_lower unicode_lower [] = []
to_lower unicode_lower (c ∷ cs) =
    (if leb b'A' c && leb c b'Z' then c + 32 else if leb c 127 then c else unicode_lower c)
    ∷ to_lower unicode_lower cs

-- The characters from the start for which `test` holds, at most `n`, and the rest.
unfoldable pub span : ℕ → (ℕ → Bool) → List ℕ → List ℕ × List ℕ
span zero test s = ([], s)
span (suc n) test [] = ([], [])
span (suc n) test (c ∷ cs) =
    let (taken, rest) = span n test cs in if test c then (c ∷ taken, rest) else ([], c ∷ cs)

abbrev pub count : List ℕ → ℕ
count [] = 0
count (c ∷ cs) = suc (count cs)

-- As many characters as there are for which `test` holds.
abbrev pub span_all : (ℕ → Bool) → List ℕ → List ℕ × List ℕ
span_all test s = span (count s) test s

-- The three groups: the day, the month and the year.
pub record Groups : Type 0 where
  pub day : List ℕ
  pub month : List ℕ
  pub year : List ℕ

abbrev pub groups_if : Bool → List ℕ → List ℕ → List ℕ → Option Groups
groups_if true d m y = some (record { day = d; month = m; year = y })
groups_if false d m y = none

abbrev pub is_empty : List ℕ → Bool
is_empty [] = true
is_empty (c ∷ cs) = false

-- A match of the pattern at the start of a text.
unfoldable pub match_here : List ℕ → Option Groups
match_here s =
    let (d, s1) = span 2 is_digit s in
    let (b1, s2) = span_all is_space s1 in
    let (m, s3) = span_all is_alpha s2 in
    let (b2, s4) = span_all is_space s3 in
    let (y, s5) = span 4 is_digit s4 in
    groups_if
      (not (is_empty d)
        && not (is_empty b1)
        && not (is_empty m)
        && not (is_empty b2)
        && (count y == 4))
      d m y

abbrev pub or_else : Option Groups → Option Groups → Option Groups
or_else (some g) later = some g
or_else none later = later

-- `FindStringSubmatch`: the leftmost match.
unfoldable pub find_match : List ℕ → Option Groups
find_match [] = none
find_match (c ∷ cs) = or_else (match_here (c ∷ cs)) (find_match cs)

-- `strconv.Atoi` of a text of at most four digits; `none` is its error.
unfoldable pub atoi_from : ℕ → List ℕ → Option ℕ
atoi_from n [] = some n
atoi_from n (c ∷ cs) =
    let rest = atoi_from (10 * n + (c - b'0')) cs in if is_digit c then rest else none

abbrev pub atoi : List ℕ → Option ℕ
atoi [] = none
atoi (c ∷ cs) = atoi_from 0 (c ∷ cs)

abbrev pub text_eq : List ℕ → List ℕ → Bool
text_eq [] [] = true
text_eq (a ∷ s) (b ∷ t) = (a == b) && text_eq s t
text_eq _ _ = false

abbrev pub spanish_months : List (List ℕ × ℕ)
spanish_months =
    (codes "enero", 1)
    ∷ (codes "febrero", 2)
    ∷ (codes "marzo", 3)
    ∷ (codes "abril", 4)
    ∷ (codes "mayo", 5)
    ∷ (codes "junio", 6)
    ∷ (codes "julio", 7)
    ∷ (codes "agosto", 8)
    ∷ (codes "septiembre", 9)
    ∷ (codes "setiembre", 9)
    ∷ (codes "octubre", 10)
    ∷ (codes "noviembre", 11)
    ∷ (codes "diciembre", 12)
    ∷ []

unfoldable pub month_in : List (List ℕ × ℕ) → List ℕ → Option ℕ
month_in [] name = none
month_in ((k, n) ∷ ms) name = if text_eq k name then some n else month_in ms name

pub data DateError : Type 0 where
  missing_date parse_day parse_year unknown_month invalid_date : DateError

-- The last test: `time.Date` moves a day that its month does not have into another month.
abbrev pub check_civil : CivilDate → Result DateError Time
check_civil c =
    let effective = date c 0 0 utc in
    if differs (date_of effective) c then err invalid_date else ok effective

abbrev pub read_groups : Option Groups → Result DateError Time
read_groups none = err missing_date
read_groups (some g) = elim (atoi g.day) [
  | none ↦ err parse_day
  | some day ↦ elim (atoi g.year) [
    | none ↦ err parse_year
    | some year ↦ elim (month_in spanish_months g.month) [
      | none ↦ err unknown_month
      | some month ↦ check_civil (civil (absolute_year year) month day)
    ]
  ]
]

unfoldable pub parse_effective_date : (ℕ → ℕ) → List ℕ → Result DateError Time
parse_effective_date unicode_lower raw = read_groups (find_match (to_lower unicode_lower raw))
