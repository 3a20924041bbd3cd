-- ===== src/Examples.antt =====
-- The theorems on the shared packages and on the layers around the services at concrete values.
use order_billing_system.Base.Tests.{ℕ, ◌*◌, ◌+◌, ◌≤◌, ◌≡◌, ◌≢◌, ◌↔◌, refl, inl, arith}
use order_billing_system.Base.Texts.{eq_iff}
use order_billing_system.Base.Lists.{[], All}
use order_billing_system.Base.Integers.{pos, negsuc}
use order_billing_system.Shared.Effects.{ok}
use order_billing_system.Shared.Money.{value, scan, text_column, bytes_column}
use order_billing_system.Shared.Money.Format.{scan-value}
use order_billing_system.Shared.Currency.{to_usd}
use order_billing_system.Shared.Currency.Error.{to_usd_within_a_cent}
use order_billing_system.Order.Validation.{validate_items}
use order_billing_system.Order.Validation.Valid.{IsValid, validate_items_iff}
use order_billing_system.Order.Total.{calc_total_usd}
use order_billing_system.Order.Total.Sums.{calc_total_usd_exact}
use order_billing_system.Order.Samples.{sample_items}

validate_items_iff_example :
    (validate_items sample_items ≡ ok tt) ↔ ((sample_items ≢ []) × All IsValid sample_items)
validate_items_iff_example = validate_items_iff sample_items

sample_valid : validate_items sample_items ≡ ok tt
sample_valid = (validate_items_iff sample_items).1 (
  (λ e. cc),
  (
    record {
      named = λ e. ground (arith, eq_iff "p-1" "");
      counted = (2, refl, omega arith);
      priced = (125, refl, omega arith);
      in_currency = inl refl;
    },
    tt,
  ),
)

calc_total_usd_exact_example : calc_total_usd sample_items (to_usd (pos 0)) ≡ ok (pos 250)
calc_total_usd_exact_example =
    calc_total_usd_exact (pos 0) sample_items sample_valid (refl, tt) (omega arith)

to_usd_within_a_cent_example :
    ((c : ℕ) × (to_usd (pos 0) (pos 23000) "EUR" ≡ ok (pos c))
      × (100 * c ≤ 109 * 23000)
      × (109 * 23000 ≤ 100 * c + 100))
    × ((c : ℕ) × (to_usd (pos 0) (pos 23000) "RUB" ≡ ok (pos c))
        × (1000 * c ≤ 11 * 23000)
        × (11 * 23000 ≤ 1000 * c + 1000))
to_usd_within_a_cent_example = to_usd_within_a_cent (pos 0) 23000 (omega arith)

scan-value_example :
    (scan (text_column (value (record { amount = negsuc 249; currency = "EUR" })))
      ≡ ok (record { amount = negsuc 249; currency = "EUR" }))
    × (scan (bytes_column (value (record { amount = negsuc 249; currency = "EUR" })))
        ≡ ok (record { amount = negsuc 249; currency = "EUR" }))
scan-value_example =
    scan-value (record { amount = negsuc 249; currency = "EUR" }) (omega arith)
      ((λ e. omega arith), ((λ e. omega arith), ((λ e. omega arith), tt)))
