-- ===== src/ApiServer/ParamErrors.antt =====
-- The errors about parameters, with their texts and what they wrap.
use capi_noplane.Prelude.{String, Option, none, some, ◌<>◌}
use capi_noplane.Prelude.Int.{ℤ}
use capi_noplane.Errors.{Error}
use capi_noplane.ApiServer.Kit.{ServerKit}

-- One constructor for each of the types, with the fields of its struct.
pub data ParamError : Type 0 where
  unescaped_cookie_param : (param_name : String) → Error → ParamError
  unmarshaling_param : (param_name : String) → Error → ParamError
  required_param : (param_name : String) → ParamError
  required_header : (param_name : String) → Error → ParamError
  invalid_param_format : (param_name : String) → Error → ParamError
  too_many_values_for_param : (param_name : String) (number : ℤ) → ParamError

-- An `error` of the server: one of these, or any other.
pub data ServerError : Type 0 where
  about_param : ParamError → ServerError
  plain : Error → ServerError

module _ {C : Type 0} (kit : ServerKit C) where
  -- The methods Error.
  unfoldable pub param_error_text : ParamError → String
  param_error_text (unescaped_cookie_param name e) =
      "error unescaping cookie parameter '" <> name <> "'"
  param_error_text (unmarshaling_param name e) =
      "Error unmarshaling parameter " <> name <> " as JSON: " <> kit.error_text e
  param_error_text (required_param name) =
      "Query argument " <> name <> " is required, but not found"
  param_error_text (required_header name e) =
      "Header parameter " <> name <> " is required, but not found"
  param_error_text (invalid_param_format name e) =
      "Invalid format for parameter " <> name <> ": " <> kit.error_text e
  param_error_text (too_many_values_for_param name number) =
      "Expected one value for " <> name <> ", got " <> kit.format_int number

  unfoldable pub server_error_text : ServerError → String
  unfolding param_error_text
  server_error_text (about_param e) = param_error_text e
  server_error_text (plain e) = kit.error_text e

-- The methods Unwrap, which two of the types do not have.
unfoldable pub unwrap : ParamError → Option Error
unwrap (unescaped_cookie_param name e) = some e
unwrap (unmarshaling_param name e) = some e
unwrap (required_param name) = none
unwrap (required_header name e) = some e
unwrap (invalid_param_format name e) = some e
unwrap (too_many_values_for_param name number) = none
