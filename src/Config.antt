-- ===== src/Config.antt =====
-- internal/config/config.go. The environment, and godotenv's `Load` of a file into it, are arguments.
pub mod Port
use Prim.Native.String.{String}
use ve_xchange_api.Prelude.{
  ℕ, ◌+◌, ◌*◌, ◌^◌, Bool, not, ◌&&◌, Option, none, some, List, [], ◌∷◌, ltb, if◌then◌else◌,
}
use ve_xchange_api.Prelude.Result.{Result, ok, err}
use ve_xchange_api.Prelude.Action.{Action}
use ve_xchange_api.GoTime.DateOnly.{is_digit, digit_value}
use ve_xchange_api.Provider.EffectiveDate.{codes}

pub record Config : Type 0 where
  pub app_port : ℕ
  pub database_url : String

pub record Env {ℓ} (W E : Type ℓ) : Type ℓ where
  -- godotenv.Load
  pub load : Action W E (Unit {0})
  -- `errors.Is(err, os.ErrNotExist)`
  pub is_not_exist : E → Bool
  -- os.Getenv
  pub getenv : String → W → String

-- `strconv.ParseUint(s, 10, 64)` on the codes of the characters, from a value on; `none` is its error.
pub parse_digits : ℕ → List ℕ → Option ℕ
parse_digits n [] = some n
parse_digits n (c ∷ cs) =
    let m = 10 * n + digit_value c in
    let rest = parse_digits m cs in if is_digit c && ltb m (2 ^ 64) then rest else none

abbrev pub parse_uint : List ℕ → Option ℕ
parse_uint [] = none
parse_uint (c ∷ cs) = parse_digits 0 (c ∷ cs)

abbrev pub default_port : ℕ
default_port = 8080

abbrev pub port_or_default : Option ℕ → ℕ
port_or_default none = default_port
port_or_default (some n) = n

module _ {ℓ} {W E : Type ℓ} (env : Env W E) where
  -- What follows `Load`.
  abbrev pub read_config : W → Config
  read_config w = record {
    app_port = port_or_default (parse_uint (codes (env.getenv "APP_PORT" w)));
    database_url = env.getenv "DATABASE_URL" w;
  }

  unfoldable pub load_config : Action W E Config
  load_config w =
      let (loaded, w') = env.load w in
      elim loaded [
        | err e ↦ if not (env.is_not_exist e) then (err e, w') else (ok (read_config w'), w')
        | ok u ↦ (ok (read_config w'), w')
      ]
