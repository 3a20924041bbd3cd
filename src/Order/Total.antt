-- ===== src/Order/Total.antt =====
-- `calcTotalUSD` of order_service/internal/service/currency.go.
pub mod Sums
use order_billing_system.Base.Tests.{ℕ, ◌+◌}
use order_billing_system.Base.Texts.{String, sprint}
use order_billing_system.Base.Lists.{List, [], ◌∷◌}
use order_billing_system.Base.Integers.{ℤ, pos, ◌+ℤ◌, ◌*ℤ◌, wrap64}
use order_billing_system.Base.Decimal.{show_ℕ}
use order_billing_system.Shared.Errors.{GoError, app, err_invalid_input, error_text}
use order_billing_system.Shared.Effects.{Result, ok, err}
use order_billing_system.Order.Model.{OrderItem}

-- `currency.Converter.ToUSD`, the interface that the service calls.
abbrev pub Converter : Type 0
Converter = ℤ → String → Result ℤ

-- `item.Price.Amount * int64(item.Quantity)`, in int64.
abbrev pub line_amount : OrderItem → ℤ
line_amount item = wrap64 (item.price.amount *ℤ item.quantity)

conversion_error : ℕ → OrderItem → GoError → GoError
conversion_error i item e = app (
    err_invalid_input (
      sprint (
        "item "
        ∷ show_ℕ i
        ∷ ": cannot convert "
        ∷ item.price.currency
        ∷ " to USD: "
        ∷ error_text e
        ∷ [])))

-- The loop from index `i` on, with the total so far.
pub calc_from : Converter → ℕ → ℤ → List OrderItem → Result ℤ
unfolding conversion_error
calc_from conv i total [] = ok total
calc_from conv i total (item ∷ items) = elim (conv (line_amount item) item.price.currency) [
  | ok usd ↦ calc_from conv (i + 1) (wrap64 (total +ℤ usd)) items
  | err e ↦ err (conversion_error i item e)
]

unfoldable pub calc_total_usd : List OrderItem → Converter → Result ℤ
unfolding calc_from
calc_total_usd items conv = calc_from conv 0 (pos 0) items
