-- ===== src/Provider/EffectiveDate/Written.antt =====
-- A date written out in Spanish, and what its parts read as.
use ve_xchange_api.Prelude.{
  ℕ, zero, suc, ◌+◌, ◌-◌, ◌*◌, ◌/◌, ◌≤◌, ◌<◌, ◌≡◌, refl, ap, Bool, not, true, Bool-cases, inl, inr,
  some, List, [], ◌∷◌, ◌++◌, arith, ltb, ltb→lt, if◌then◌else◌,
}
use ve_xchange_api.GoTime.DateOnly.{is_digit, digit, is_digit-digit}
use ve_xchange_api.Provider.EffectiveDate.{
  Groups, codes, count, is_empty, is_alpha, atoi_from, atoi, month_in, spanish_months,
}

-- The day with one digit if that is enough, the month's name and a year of four digits.
abbrev pub day_text : ℕ → List ℕ
day_text d = if ltb d 10 then digit d ∷ [] else digit (d / 10) ∷ digit d ∷ []

abbrev pub year_text : ℕ → List ℕ
year_text y = digit (y / 1000) ∷ digit (y / 100) ∷ digit (y / 10) ∷ digit y ∷ []

abbrev pub month_text : ℕ → List ℕ
month_text (suc zero) = codes "enero"
month_text (suc (suc zero)) = codes "febrero"
month_text (suc (suc (suc zero))) = codes "marzo"
month_text (suc (suc (suc (suc zero)))) = codes "abril"
month_text (suc (suc (suc (suc (suc zero))))) = codes "mayo"
month_text (suc (suc (suc (suc (suc (suc zero)))))) = codes "junio"
month_text (suc (suc (suc (suc (suc (suc (suc zero))))))) = codes "julio"
month_text (suc (suc (suc (suc (suc (suc (suc (suc zero)))))))) = codes "agosto"
month_text (suc (suc (suc (suc (suc (suc (suc (suc (suc zero))))))))) = codes "septiembre"
month_text (suc (suc (suc (suc (suc (suc (suc (suc (suc (suc zero)))))))))) = codes "octubre"
month_text (suc (suc (suc (suc (suc (suc (suc (suc (suc (suc (suc zero))))))))))) =
    codes "noviembre"
month_text _ = codes "diciembre"

abbrev pub date_text : ℕ → ℕ → ℕ → List ℕ → List ℕ
date_text d m y after = day_text d ++ (b' ' ∷ (month_text m ++ (b' ' ∷ (year_text y ++ after))))

abbrev pub groups_of : ℕ → ℕ → ℕ → Groups
groups_of d m y = record { day = day_text d; month = month_text m; year = year_text y }

abbrev pub Passes : (ℕ → Bool) → List ℕ → Type 0
Passes test [] = Unit
Passes test (c ∷ cs) = (test c ≡ true) × Passes test cs

-- The months' names are words of letters, and the table knows them.
pub data IsMonth : ℕ → List ℕ → Type 0 where
  word :
      {n : ℕ} (c : ℕ) (cs : List ℕ)
      → Passes is_alpha (c ∷ cs)
      → month_in spanish_months (c ∷ cs) ≡ some n
      → IsMonth n (c ∷ cs)

pub month_text-IsMonth : (m : ℕ) → 1 ≤ m → m ≤ 12 → IsMonth m (month_text m)
unfolding is_alpha month_in
month_text-IsMonth zero lo hi = absurd (omega arith)
month_text-IsMonth (suc zero) lo hi = word _ _ (ground arith) refl
month_text-IsMonth (suc (suc zero)) lo hi = word _ _ (ground arith) refl
month_text-IsMonth (suc (suc (suc zero))) lo hi = word _ _ (ground arith) refl
month_text-IsMonth (suc (suc (suc (suc zero)))) lo hi = word _ _ (ground arith) refl
month_text-IsMonth (suc (suc (suc (suc (suc zero))))) lo hi = word _ _ (ground arith) refl
month_text-IsMonth (suc (suc (suc (suc (suc (suc zero)))))) lo hi = word _ _ (ground arith) refl
month_text-IsMonth (suc (suc (suc (suc (suc (suc (suc zero))))))) lo hi =
    word _ _ (ground arith) refl
month_text-IsMonth (suc (suc (suc (suc (suc (suc (suc (suc zero)))))))) lo hi =
    word _ _ (ground arith) refl
month_text-IsMonth (suc (suc (suc (suc (suc (suc (suc (suc (suc zero))))))))) lo hi =
    word _ _ (ground arith) refl
month_text-IsMonth (suc (suc (suc (suc (suc (suc (suc (suc (suc (suc zero)))))))))) lo hi =
    word _ _ (ground arith) refl
month_text-IsMonth (suc (suc (suc (suc (suc (suc (suc (suc (suc (suc (suc zero))))))))))) lo hi =
    word _ _ (ground arith) refl
month_text-IsMonth (suc (suc (suc (suc (suc (suc (suc (suc (suc (suc (suc (suc zero)))))))))))) lo
      hi =
    word _ _ (ground arith) refl
month_text-IsMonth (suc (suc (suc (suc (suc (suc (suc (suc (suc (suc (suc (suc (suc m)))))))))))))
      lo hi =
    absurd (omega arith)

pub known : {n : ℕ} {name : List ℕ} → IsMonth n name → month_in spanish_months name ≡ some n
known (word c cs letters k) = k

digits_year :
    (y : ℕ)
    → y < 10000
    → 10
          * (10 * (10 * (0 + (digit (y / 1000) - 48)) + (digit (y / 100) - 48))
              + (digit (y / 10) - 48))
        + (digit y - 48)
      ≡ y
unfolding digit
digits_year y h = omega arith

digits_day : (d : ℕ) → d < 100 → 10 * (10 * 0 + (digit (d / 10) - 48)) + (digit d - 48) ≡ d
unfolding digit
digits_day d h = omega arith

digits_small : (d : ℕ) → d < 10 → 10 * 0 + (digit d - 48) ≡ d
unfolding digit
digits_small d h = omega arith

-- The digits of a day and of a year, read back.
pub day_text_digits :
    (d : ℕ)
    → d < 100
    → (not (is_empty (day_text d)) ≡ true)
      × (count (day_text d) ≤ 2)
      × Passes is_digit (day_text d)
      × (atoi (day_text d) ≡ some d)
unfolding atoi_from
day_text_digits d h = elim (Bool-cases (ltb d 10)) [
  | inl e ↦ rw e (
      simp is_digit-digit (refl, omega arith, (refl, tt), ap some (digits_small d (ltb→lt d 10 e))))
  | inr e ↦
      rw e (simp is_digit-digit (refl, omega arith, (refl, (refl, tt)), ap some (digits_day d h)))
]

pub year_text_digits :
    (y : ℕ) → y < 10000 → Passes is_digit (year_text y) × (atoi (year_text y) ≡ some y)
unfolding atoi_from
year_text_digits y h =
    simp is_digit-digit ((refl, (refl, (refl, (refl, tt)))), ap some (digits_year y h))
