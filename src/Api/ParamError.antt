-- ===== src/Api/ParamError.antt =====
-- The errors of internal/api/server.gen.go, with their `Error` and `Unwrap`; `E` is the type of the
-- errors that they wrap.
use Prim.Native.String.{String, ◌++◌}
use ve_xchange_api.Prelude.{ℕ, Option, none, some}

pub data ParamError {ℓ} (E : Type ℓ) : Type ℓ where
  unescaped_cookie_param : String → E → ParamError E
  unmarshaling_param : String → E → ParamError E
  required_param : String → ParamError E
  required_header : String → E → ParamError E
  invalid_param_format : String → E → ParamError E
  too_many_values_for_param : String → ℕ → ParamError E

module _ {ℓ} {E : Type ℓ} where
  -- `Error`; `text` is the `Error` of the error inside, `%s` of it included, and `decimal` is `%d`.
  unfoldable pub error : (E → String) → (ℕ → String) → ParamError E → String
  error text decimal (unescaped_cookie_param name e) =
      "error unescaping cookie parameter '" ++ name ++ "'"
  error text decimal (unmarshaling_param name e) =
      "Error unmarshaling parameter " ++ name ++ " as JSON: " ++ text e
  error text decimal (required_param name) =
      "Query argument " ++ name ++ " is required, but not found"
  error text decimal (required_header name e) =
      "Header parameter " ++ name ++ " is required, but not found"
  error text decimal (invalid_param_format name e) =
      "Invalid format for parameter " ++ name ++ ": " ++ text e
  error text decimal (too_many_values_for_param name count) =
      "Expected one value for " ++ name ++ ", got " ++ decimal count

  -- `Unwrap`, for the types that have it.
  unfoldable unwrap : ParamError E → Option E
  unwrap (unescaped_cookie_param name e) = some e
  unwrap (unmarshaling_param name e) = some e
  unwrap (required_param name) = none
  unwrap (required_header name e) = some e
  unwrap (invalid_param_format name e) = some e
  unwrap (too_many_values_for_param name count) = none
