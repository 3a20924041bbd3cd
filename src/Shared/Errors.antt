-- ===== src/Shared/Errors.antt =====
-- shared/errors/errors.go, and the other `error` values that the services meet.
use order_billing_system.Base.Tests.{
  ◌≡◌, refl, ℕ, Bool, true, false, Option, none, some, if◌then◌else◌,
}
use order_billing_system.Base.Texts.{String, str_eq, sprint}
use order_billing_system.Base.Lists.{[], ◌∷◌}

pub record AppError : Type 0 where
  pub code : String
  pub message : String
  pub status : ℕ

-- The constants of net/http that the constructors use.
abbrev pub status_bad_request : ℕ
status_bad_request = 400

abbrev pub status_not_found : ℕ
status_not_found = 404

abbrev pub status_conflict : ℕ
status_conflict = 409

abbrev pub status_internal_server_error : ℕ
status_internal_server_error = 500

-- The parameter's value at the end of the `if msg == ""` that opens each constructor.
abbrev or_default : String → String → String
or_default msg fallback = if str_eq msg "" then fallback else msg

unfoldable pub err_not_found : String → AppError
err_not_found msg = record {
  code = "ERR_NOT_FOUND";
  message = or_default msg "resource not found";
  status = status_not_found;
}

unfoldable pub err_invalid_input : String → AppError
err_invalid_input msg = record {
  code = "ERR_INVALID_INPUT";
  message = or_default msg "invalid input";
  status = status_bad_request;
}

unfoldable pub err_internal_error : String → AppError
err_internal_error msg = record {
  code = "ERR_INTERNAL";
  message = or_default msg "internal server error";
  status = status_internal_server_error;
}

unfoldable pub err_invalid_order_state : String → AppError
err_invalid_order_state msg = record {
  code = "ERR_INVALID_ORDER_STATE";
  message = or_default msg "invalid order state";
  status = status_conflict;
}

-- `error` values: an application error, `gorm.ErrRecordNotFound`, a plain text, and an error that
-- `fmt.Errorf` wraps by `%w` behind a prefix.
pub data GoError : Type 0 where
  app : AppError → GoError
  record_not_found : GoError
  text : String → GoError
  wrap : String → GoError → GoError

-- `err.Error()`; for an application error this is `(*AppError).Error`.
unfoldable pub error_text : GoError → String
error_text (app e) = e.message
error_text record_not_found = "record not found"
error_text (text s) = s
error_text (wrap prefix e) = sprint (prefix ∷ error_text e ∷ [])

-- `errors.As(err, &appErr)`: the first application error in the chain.
unfoldable pub as_app_error : GoError → Option AppError
as_app_error (app e) = some e
as_app_error record_not_found = none
as_app_error (text s) = none
as_app_error (wrap prefix e) = as_app_error e

-- `errors.Is(err, gorm.ErrRecordNotFound)`
unfoldable pub is_record_not_found : GoError → Bool
is_record_not_found (app e) = false
is_record_not_found record_not_found = true
is_record_not_found (text s) = false
is_record_not_found (wrap prefix e) = is_record_not_found e

-- `e` is the application error with code `c`.
abbrev pub HasCode : String → GoError → Type 0
HasCode c e = (a : AppError) × (e ≡ app a) × (a.code ≡ c)

pub invalid_input_code : (m : String) → HasCode "ERR_INVALID_INPUT" (app (err_invalid_input m))
unfolding err_invalid_input
invalid_input_code m = (_, refl, refl)

pub not_found_code : (m : String) → HasCode "ERR_NOT_FOUND" (app (err_not_found m))
unfolding err_not_found
not_found_code m = (_, refl, refl)

pub internal_code : (m : String) → HasCode "ERR_INTERNAL" (app (err_internal_error m))
unfolding err_internal_error
internal_code m = (_, refl, refl)

pub order_state_code :
    (m : String) → HasCode "ERR_INVALID_ORDER_STATE" (app (err_invalid_order_state m))
unfolding err_invalid_order_state
order_state_code m = (_, refl, refl)
