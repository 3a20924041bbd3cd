-- ===== src/Billing/Repository.antt =====
-- billing_service/internal/repository: billing_repo.go and processed_event.go.
use order_billing_system.Base.Tests.{ℕ, Bool, true, false, Option, ◌==◌, if◌then◌else◌}
use order_billing_system.Base.Texts.{String}
use order_billing_system.Shared.Errors.{GoError, text, wrap, is_record_not_found}
use order_billing_system.Shared.Effects.{
  Time, Result, ok, err, Act, pure, fail, call, or_fail, ◌>>=◌,
}
use order_billing_system.Billing.Model.{Invoice, ProcessedEvent}
use order_billing_system.Billing.Environment.{Environment}

-- The error that `Get` makes of a failed query.
pub get_error : GoError → GoError
get_error e = if is_record_not_found e then e else wrap "failed to get invoice: " e

-- The value and the error of `Exists`, from those of its query.
pub exists_result : Result ProcessedEvent → Result Bool
exists_result (ok row) = ok true
exists_result (err e) = if is_record_not_found e then ok false else err e

module _ (env : Environment) where
  -- `BillingRepository.Create`
  unfoldable pub create : Invoice → Act env.World (Unit {0})
  create inv = env.create_invoice inv

  -- `BillingRepository.Get`
  unfoldable pub get : String → Act env.World Invoice
  unfolding get_error
  get order_id = or_fail (env.first_invoice order_id) get_error

  affected : ℕ → Act env.World (Unit {0})
  affected rows = if rows == 0 then fail (text "invoice not found") else pure tt

  -- `BillingRepository.UpdateStatus`
  unfoldable pub update_status : String → String → Option Time → Act env.World (Unit {0})
  unfolding affected
  update_status order_id status paid_at = do
    rows ←
        or_fail (env.update_invoice order_id (record { status = status; paid_at = paid_at }))
          (wrap "failed to update invoice: ")
    affected rows

  -- `eventRepository.Exists`
  unfoldable pub exists : String → Act env.World Bool
  unfolding exists_result
  exists event_id w = let (r, w') = env.first_processed event_id w in (exists_result r, w')

  -- `eventRepository.Save`
  unfoldable pub save : String → String → Act env.World (Unit {0})
  save event_id topic = do
    now ← call env.time_now
    env.create_processed (record { event_id = event_id; topic = topic; processed_at = now.unix })
