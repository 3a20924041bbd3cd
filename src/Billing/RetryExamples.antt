-- ===== src/Billing/RetryExamples.antt =====
-- The theorem on billing_service/internal/kafka/reliability/retry.go at a function that always fails.
use order_billing_system.Base.Tests.{arith}
use order_billing_system.Shared.Errors.{text}
use order_billing_system.Shared.Effects.{Act, err}
use order_billing_system.Billing.Environment.{Ledger}
use order_billing_system.Billing.Retry.{retry}
use order_billing_system.Billing.Retry.Tries.{Tries, retry-Tries}
use order_billing_system.Billing.Samples.{sample_env, sample_doc, empty_ledger}

always_fails : Act Ledger (Unit {0})
always_fails w = (err (text "connection refused"), w)

retry-Tries_example :
    Tries sample_env 3 always_fails 0 empty_ledger (retry sample_env 3 always_fails empty_ledger)
retry-Tries_example =
    retry-Tries sample_env sample_doc always_fails 3 empty_ledger (omega arith) (omega arith)
