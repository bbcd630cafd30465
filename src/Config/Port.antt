-- ===== src/Config/Port.antt =====
-- Which port the server listens on.
use ve_xchange_api.Prelude.{
  ℕ, ◌+◌, ◌*◌, ◌^◌, ◌≤◌, ◌<◌, ◌≡◌, ◌≢◌, ◌↔◌, refl, Bool, true, false, ◌&&◌, none, some, List, [],
  ◌∷◌, arith, ltb, ltb→lt, Bool-cases, inl, inr, ◌⊎◌,
}
use ve_xchange_api.Prelude.Result.{ok, err}
use ve_xchange_api.GoTime.DateOnly.{is_digit, digit_value}
use ve_xchange_api.Provider.EffectiveDate.{codes}
use ve_xchange_api.Config.{
  Config, Env, parse_digits, parse_uint, port_or_default, default_port, read_config, load_config,
}

-- The number that digits write, after a number, and that they are digits.
abbrev pub value_from : ℕ → List ℕ → ℕ
value_from n [] = n
value_from n (c ∷ cs) = value_from (10 * n + digit_value c) cs

abbrev pub all_digits : List ℕ → Bool
all_digits [] = true
all_digits (c ∷ cs) = is_digit c && all_digits cs

value_from-ge : (n : ℕ) (cs : List ℕ) → n ≤ value_from n cs
value_from-ge n [] = omega arith
value_from-ge n (c ∷ cs) = omega (arith, value_from-ge (10 * n + digit_value c) cs)

parse_digits-ok :
    (n : ℕ) (cs : List ℕ)
    → all_digits cs ≡ true
    → value_from n cs < 2 ^ 64
    → parse_digits n cs ≡ some (value_from n cs)
unfolding parse_digits
parse_digits-ok n [] d h = refl
parse_digits-ok n (c ∷ cs) d h =
    ground (
      arith,
      value_from-ge (10 * n + digit_value c) cs,
      parse_digits-ok (10 * n + digit_value c) cs,
    )

parse_digits-none :
    (n : ℕ) (cs : List ℕ)
    → n < 2 ^ 64
    → (all_digits cs ≡ false) ⊎ (2 ^ 64 ≤ value_from n cs)
    → parse_digits n cs ≡ none
unfolding parse_digits
parse_digits-none n [] small h = ground arith
parse_digits-none n (c ∷ cs) small h = ground (arith, parse_digits-none (10 * n + digit_value c) cs)

-- A port that is written in digits.
pub record IsWritten (s : List ℕ) (n : ℕ) : Type 0 where
  pub some_digit : s ≢ []
  pub digits : all_digits s ≡ true
  pub value : value_from 0 s ≡ n
  pub fits : n < 2 ^ 64

-- The port that a text stands for: the number that it writes, or else the default.
pub data IsPort (s : List ℕ) (n : ℕ) : Type 0 where
  written : IsWritten s n → IsPort s n
  default : ((m : ℕ) → IsWritten s m → ⊥) → n ≡ default_port → IsPort s n

parse_uint-IsPort : (s : List ℕ) → IsPort s (port_or_default (parse_uint s))
parse_uint-IsPort [] = default (λ m w. w.some_digit refl) refl
parse_uint-IsPort (c ∷ cs) = elim (Bool-cases (all_digits (c ∷ cs))) [
  | inl digits ↦ elim (Bool-cases (ltb (value_from 0 (c ∷ cs)) (2 ^ 64))) [
    | inl fits ↦
        let small : value_from 0 (c ∷ cs) < 2 ^ 64 = ltb→lt _ _ fits in
        rw (parse_digits-ok 0 (c ∷ cs) digits small)
          (written (record { some_digit = λ e. cc; digits = digits; value = refl; fits = small }))
    | inr large ↦
        let big : 2 ^ 64 ≤ value_from 0 (c ∷ cs) = ground arith in
        rw (parse_digits-none 0 (c ∷ cs) (omega arith) (inr big))
          (default (λ m w. omega (arith, w.value, w.fits)) refl)
  ]
  | inr other ↦
      rw (parse_digits-none 0 (c ∷ cs) (omega arith) (inl other))
        (default (λ m w. ground (arith, w.digits)) refl)
]

module _ {ℓ} {W E : Type ℓ} (env : Env W E) (w : W) where
  -- A configuration that is loaded has the environment's DATABASE_URL, after the file was loaded into
  -- it, and the port that APP_PORT writes in digits, if that is less than 2^64, and 8080 if it writes
  -- none. There is an error exactly when the file cannot be loaded for another reason than that it does
  -- not exist, and it is that reason.
  pub load_config_lem :
      ((cfg : Config)
        → (load_config env w).0 ≡ ok cfg
        → IsPort (codes (env.getenv "APP_PORT" (env.load w).1)) cfg.app_port
          × (cfg.database_url ≡ env.getenv "DATABASE_URL" (env.load w).1))
      × ((e : E)
          → ((load_config env w).0 ≡ err e)
            ↔ (((env.load w).0 ≡ err e) × (env.is_not_exist e ≡ false)))
  unfolding load_config
  load_config_lem = (
    (λ cfg e.
        let same : cfg ≡ read_config env (env.load w).1 = ground arith in
        rw same (parse_uint-IsPort (codes (env.getenv "APP_PORT" (env.load w).1)), refl)),
    (λ e. (λ h. ground arith, λ (failed, other). ground arith)),
  )
