-- ===== src/Order/Validation.antt =====
-- `validateItems` of order_service/internal/service/order.go.
pub mod Valid
use order_billing_system.Base.Tests.{ℕ, ◌+◌, Bool, ◌||◌, Option, none, some, if◌then◌else◌}
use order_billing_system.Base.Texts.{String, str_eq, sprint}
use order_billing_system.Base.Lists.{List, [], ◌∷◌}
use order_billing_system.Base.Integers.{pos, leb_ℤ}
use order_billing_system.Base.Decimal.{show_ℕ}
use order_billing_system.Shared.Errors.{AppError, app, err_invalid_input}
use order_billing_system.Shared.Effects.{Result, ok, err}
use order_billing_system.Order.Model.{OrderItem}

-- `allowedCurrencies[currency]`: a missing key reads false.
pub allowed_currencies : String → Bool
allowed_currencies c = str_eq c "USD" || str_eq c "EUR" || str_eq c "RUB"

-- One round of the loop.
pub validate_item : ℕ → OrderItem → Option AppError
unfolding allowed_currencies
validate_item i item =
    if str_eq item.product_id ""
    then some (err_invalid_input (sprint ("item " ∷ show_ℕ i ∷ ": product_id is required" ∷ [])))
    else if leb_ℤ item.quantity (pos 0)
    then some (err_invalid_input (sprint ("item " ∷ show_ℕ i ∷ ": quantity must be positive" ∷ [])))
    else if leb_ℤ item.price.amount (pos 0)
    then some (err_invalid_input (sprint ("item " ∷ show_ℕ i ∷ ": price must be positive" ∷ [])))
    else if allowed_currencies item.price.currency
    then none
    else some (
        err_invalid_input (
          sprint (
            "item "
            ∷ show_ℕ i
            ∷ ": unsupported currency "
            ∷ item.price.currency
            ∷ " (allowed: USD, EUR, RUB)"
            ∷ [])))

-- The loop from index `i` on; it stops at the first item that is refused.
pub validate_from : ℕ → List OrderItem → Option AppError
validate_from i [] = none
validate_from i (item ∷ items) = elim (validate_item i item) [
  | some e ↦ some e
  | none ↦ validate_from (i + 1) items
]

abbrev to_result : Option AppError → Result (Unit {0})
to_result none = ok tt
to_result (some e) = err (app e)

unfoldable pub validate_items : List OrderItem → Result (Unit {0})
validate_items [] = err (app (err_invalid_input "order must have at least one item"))
validate_items (item ∷ items) = to_result (validate_from 0 (item ∷ items))
