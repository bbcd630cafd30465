-- ===== src/Provider/EffectiveDate/Search.antt =====
-- A date that is written out is found and read.
use mathlib.Core.Path.{subst}
use ve_xchange_api.Prelude.{
  ℕ, zero, suc, ◌/◌, ◌≤◌, ◌<◌, ◌≡◌, ◌≢◌, refl, ◌∙◌, Bool, not, true, false, none, some, List, [],
  ◌∷◌, ◌++◌, arith,
}
use ve_xchange_api.Prelude.Result.{ok}
use ve_xchange_api.GoTime.{civil, absolute_year, utc, date}
use ve_xchange_api.GoTime.Months.{IsValid}
use ve_xchange_api.GoTime.DateOnly.{is_digit, digit, days_in_month-le}
use ve_xchange_api.Provider.EffectiveDate.{
  Groups, count, is_empty, span_all, is_space, is_alpha, to_lower, span, match_here, find_match,
  atoi, month_in, spanish_months, parse_effective_date, read_groups, check_civil,
}
use ve_xchange_api.Provider.EffectiveDate.Check.{check_civil-ok}
use ve_xchange_api.Provider.EffectiveDate.Written.{
  day_text, year_text, date_text, groups_of, Passes, IsMonth, word, month_text-IsMonth, known,
  day_text_digits, year_text_digits,
}

span-exact :
    (test : ℕ → Bool) (xs rest : List ℕ)
    → Passes test xs
    → span (count xs) test (xs ++ rest) ≡ (xs, rest)
unfolding span
span-exact test [] rest h = refl
span-exact test (c ∷ cs) rest h = rw (span-exact test cs rest h.1, h.0)

span-stop :
    (test : ℕ → Bool) (n : ℕ) (xs : List ℕ) (c : ℕ) (rest : List ℕ)
    → Passes test xs
    → test c ≡ false
    → count xs ≤ n
    → span n test (xs ++ c ∷ rest) ≡ (xs, c ∷ rest)
unfolding span
span-stop test zero [] c rest h e le = refl
span-stop test (suc n) [] c rest h e le = rw e
span-stop test zero (x ∷ xs) c rest h e le = absurd (omega arith)
span-stop test (suc n) (x ∷ xs) c rest h e le =
    rw (span-stop test n xs c rest h.1 e (omega arith), h.0)

count-le-append : (xs ys : List ℕ) → count xs ≤ count (xs ++ ys)
count-le-append [] ys = omega arith
count-le-append (x ∷ xs) ys = omega (arith, count-le-append xs ys)

span_all-stop :
    (test : ℕ → Bool) (xs : List ℕ) (c : ℕ) (rest : List ℕ)
    → Passes test xs
    → test c ≡ false
    → span_all test (xs ++ c ∷ rest) ≡ (xs, c ∷ rest)
span_all-stop test xs c rest h e =
    span-stop test (count (xs ++ c ∷ rest)) xs c rest h e (count-le-append xs (c ∷ rest))

-- The characters around the parts.
apart : (is_digit b' ' ≡ false) × (is_alpha b' ' ≡ false) × (is_space b' ' ≡ true)
unfolding is_digit is_alpha is_space
apart = (refl, refl, refl)

digit_not_space : (n : ℕ) → is_space (digit n) ≡ false
unfolding is_space digit
digit_not_space n = ground arith

alpha_not_space : (c : ℕ) → is_alpha c ≡ true → is_space c ≡ false
unfolding is_space is_alpha
alpha_not_space c h = ground arith

-- A day of one or two digits, a word of letters and a year, with spaces between.
match_here-parts :
    (day : List ℕ) (m : ℕ) (ms : List ℕ) (y : ℕ) (ys after : List ℕ)
    → not (is_empty day) ≡ true
    → count day ≤ 2
    → Passes is_digit day
    → Passes is_alpha (m ∷ ms)
    → is_space y ≡ false
    → Passes is_digit (y ∷ ys)
    → count (y ∷ ys) ≡ 4
    → match_here (day ++ (b' ' ∷ ((m ∷ ms) ++ (b' ' ∷ ((y ∷ ys) ++ after)))))
      ≡ some (record { day = day; month = m ∷ ms; year = y ∷ ys })
unfolding match_here
match_here-parts day m ms y ys after full short dd mm sp yy four =
    let r4 = (y ∷ ys) ++ after in
    let r3 = (m ∷ ms) ++ (b' ' ∷ r4) in
    rw (
      span-stop is_digit 2 day b' ' r3 dd apart.0 short,
      span_all-stop is_space (b' ' ∷ []) m (ms ++ (b' ' ∷ r4)) (apart.2, tt)
          (alpha_not_space m mm.0),
      span_all-stop is_alpha (m ∷ ms) b' ' r4 mm apart.1,
      span_all-stop is_space (b' ' ∷ []) y (ys ++ after) (apart.2, tt) sp,
      year_digits,
      full,
      four,
    )
  where
    year_digits : span 4 is_digit ((y ∷ ys) ++ after) ≡ (y ∷ ys, after)
    year_digits =
        subst (λ n. span n is_digit ((y ∷ ys) ++ after) ≡ (y ∷ ys, after)) four
          (span-exact is_digit (y ∷ ys) after yy)

match_here-no_digit : (c : ℕ) (cs : List ℕ) → not (is_digit c) ≡ true → match_here (c ∷ cs) ≡ none
unfolding match_here span
match_here-no_digit c cs h = ground arith

-- Text without a digit is passed over.
find_match-skip :
    (before s : List ℕ)
    → Passes (λ c. not (is_digit c)) before
    → find_match (before ++ s) ≡ find_match s
unfolding find_match
find_match-skip [] s h = refl
find_match-skip (b ∷ bs) s h = rw (match_here-no_digit b (bs ++ s) h.0) (find_match-skip bs s h.1)

find_match-here : (s : List ℕ) (g : Groups) → match_here s ≡ some g → s ≢ [] → find_match s ≡ some g
unfolding find_match
find_match-here [] g e ne = absurd (ne refl)
find_match-here (c ∷ cs) g e ne = rw e

read_groups-date :
    (g : Groups) (d m y : ℕ)
    → atoi g.day ≡ some d
    → atoi g.year ≡ some y
    → month_in spanish_months g.month ≡ some m
    → read_groups (some g) ≡ check_civil (civil (absolute_year y) m d)
read_groups-date g d m y ed ey em = rw (read_groups, ed, ey, em) refl

module _ (d m y : ℕ) (after : List ℕ) (valid : IsValid (civil (absolute_year y) m d))
    (h : y < 10000) where
  day_lt : d < 100
  day_lt = omega (arith, valid.day_le, days_in_month-le (absolute_year y) m)

  match_here-date_text :
      {name : List ℕ}
      → IsMonth m name
      → match_here (day_text d ++ (b' ' ∷ (name ++ (b' ' ∷ (year_text y ++ after)))))
        ≡ some (record { day = day_text d; month = name; year = year_text y })
  match_here-date_text (word c cs letters known) =
      let (full, short, digits, _) = day_text_digits d day_lt in
      match_here-parts (day_text d) c cs (digit (y / 1000))
        (digit (y / 100) ∷ digit (y / 10) ∷ digit y ∷ []) after full short digits letters
        (digit_not_space (y / 1000)) (year_text_digits y h).0 refl

  date_text_ne : date_text d m y after ≢ []
  date_text_ne = ground arith

  -- A date that exists, of a year of at most four digits, is found and read if it is the first
  -- thing with digits that the text has, in lower case: the day in one or two digits, the month's
  -- Spanish name and the year in four digits, with a space between. Any text may follow.
  pub parse_effective_date-date_text :
      (unicode_lower : ℕ → ℕ) (raw before : List ℕ)
      → to_lower unicode_lower raw ≡ before ++ date_text d m y after
      → Passes (λ c. not (is_digit c)) before
      → parse_effective_date unicode_lower raw ≡ ok (date (civil (absolute_year y) m d) 0 0 utc)
  unfolding parse_effective_date
  parse_effective_date-date_text u raw before e p =
      let months = month_text-IsMonth m valid.month_ge valid.month_le in
      rw
        (
          e,
          find_match-skip before (date_text d m y after) p,
          find_match-here _ _ (match_here-date_text months) date_text_ne,
        )
        (read_groups-date (groups_of d m y) d m y (day_text_digits d day_lt).3
            (year_text_digits y h).1 (known months)
          ∙ check_civil-ok (civil (absolute_year y) m d) valid)
