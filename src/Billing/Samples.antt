-- ===== src/Billing/Samples.antt =====
-- A database, a broker and a clock for billing_service that answer every call: they run the
-- definitions, and show that what `Documented` states can hold.
use order_billing_system.Base.Tests.{ℕ, ◌≡◌, refl, sym, ap, Option, none, some, if◌then◌else◌}
use mathlib.Core.Option.{some-injective}
use order_billing_system.Base.Texts.{String, str_eq}
use order_billing_system.Base.Lists.{[], ◌∷◌, ◌++◌}
use order_billing_system.Base.Integers.{pos}
use order_billing_system.Shared.Errors.{GoError, record_not_found, text}
use order_billing_system.Shared.Effects.{Time, Result, ok, err, Act}
use order_billing_system.Shared.Kafka.{Message}
use order_billing_system.Billing.Model.{
  Invoice, OrderCreatedEvent, OrderPaidEvent, OrderCancelledEvent, ProcessedEvent,
  invoice_status_pending, invoice_status_paid,
}
use order_billing_system.Billing.Environment.{
  Environment, Updates, Ledger, Documented, update, set_columns,
}
use order_billing_system.Billing.Handler.{Topics}

abbrev pub row_or_error : {A : Type 0} → Option A → Result A
row_or_error none = err record_not_found
row_or_error (some a) = ok a

ok-injective : {A : Type 0} {a b : A} → ok a ≡ ok b → a ≡ b
ok-injective e = cc

row_or_error_lem : {A : Type 0} (row : Option A) {a : A} → row_or_error row ≡ ok a → row ≡ some a
row_or_error_lem none found = cc
row_or_error_lem (some b) found = ap some (ok-injective found)

abbrev insert_invoice : Invoice → Option Invoice → Act Ledger (Unit {0})
insert_invoice inv none l = (ok tt, record l { invoices = update l.invoices inv.order_id inv })
insert_invoice inv (some _) l = (err (text "duplicate key"), l)

abbrev set_invoice : String → Updates → Option Invoice → Act Ledger ℕ
set_invoice k u none l = (ok 0, l)
set_invoice k u (some inv) l =
    (ok 1, record l { invoices = update l.invoices k (set_columns u inv) })

abbrev insert_processed : ProcessedEvent → Option ProcessedEvent → Act Ledger (Unit {0})
insert_processed row none l = (ok tt, record l { processed = update l.processed row.event_id row })
insert_processed row (some _) l = (err (text "duplicate key"), l)

abbrev sample_time : Time
sample_time = record { unix = pos 100; nanos = pos 0 }

abbrev pub created_o1 : OrderCreatedEvent
created_o1 = record {
  order_id = "o-1";
  total = record { amount = pos 250; currency = "USD" };
  items = [];
  created_at = sample_time;
}

abbrev pub paid_o1 : OrderPaidEvent
paid_o1 = record { order_id = "o-1"; paid_at = pos 200 }

abbrev pub cancelled_o1 : OrderCancelledEvent
cancelled_o1 = record { order_id = "o-1"; cancelled_at = pos 300 }

abbrev decode : {A : Type 0} → A → String → Result A
decode a value = if str_eq value "o-1" then ok a else err (text "invalid character")

abbrev pub sample_env : Environment
sample_env = record {
  World = Ledger;
  time_now = λ w. (sample_time, w);
  new_uuid = λ w. ("i-1", w);
  unmarshal_created = decode created_o1;
  unmarshal_paid = decode paid_o1;
  unmarshal_cancelled = decode cancelled_o1;
  marshal_dlq = λ m. ok m.payload;
  first_invoice = λ k w. (row_or_error (w.invoices k), w);
  create_invoice = λ inv w. insert_invoice inv (w.invoices inv.order_id) w;
  update_invoice = λ k u w. set_invoice k u (w.invoices k) w;
  first_processed = λ k w. (row_or_error (w.processed k), w);
  create_processed = λ row w. insert_processed row (w.processed row.event_id) w;
  write_dlq = λ value w. (ok tt, record w { dead_letters = w.dead_letters ++ value ∷ [] });
  commit_message = λ msg w. (ok tt, record w { commits = w.commits ++ msg ∷ [] });
  random_below = λ n w. (0, w);
  wait = λ d w. (ok tt, w);
  observe = λ m w. w;
}

create_lem :
    (inv : Invoice) (row : Option Invoice) (l : Ledger)
    → (insert_invoice inv row l).0 ≡ ok tt
    → (row ≡ none)
      × ((insert_invoice inv row l).1 ≡ record l { invoices = update l.invoices inv.order_id inv })
create_lem inv none l done = (refl, refl)
create_lem inv (some _) l done = cc

create_failed_lem :
    (inv : Invoice) (row : Option Invoice) (l : Ledger) {e : GoError}
    → (insert_invoice inv row l).0 ≡ err e
    → (insert_invoice inv row l).1 ≡ l
create_failed_lem inv none l failed = cc
create_failed_lem inv (some _) l failed = refl

set_lem :
    (k : String) (u : Updates) (row : Option Invoice) (l : Ledger) {inv : Invoice} {n : ℕ}
    → row ≡ some inv
    → (set_invoice k u row l).0 ≡ ok n
    → (n ≡ 1)
      × ((set_invoice k u row l).1
          ≡ record l { invoices = update l.invoices k (set_columns u inv) })
set_lem k u none l here done = cc
set_lem k u (some i) l here done = (
  ok-injective (sym done),
  ap (λ x. record l { invoices = update l.invoices k (set_columns u x) }) (some-injective _ _ here),
)

set_failed_lem :
    (k : String) (u : Updates) (row : Option Invoice) (l : Ledger) {e : GoError}
    → (set_invoice k u row l).0 ≡ err e
    → (set_invoice k u row l).1 ≡ l
set_failed_lem k u none l failed = refl
set_failed_lem k u (some i) l failed = cc

processed_lem :
    (event : ProcessedEvent) (row : Option ProcessedEvent) (l : Ledger)
    → (insert_processed event row l).0 ≡ ok tt
    → (insert_processed event row l).1
      ≡ record l { processed = update l.processed event.event_id event }
processed_lem event none l done = refl
processed_lem event (some _) l done = cc

processed_failed_lem :
    (event : ProcessedEvent) (row : Option ProcessedEvent) (l : Ledger) {e : GoError}
    → (insert_processed event row l).0 ≡ err e
    → (insert_processed event row l).1 ≡ l
processed_failed_lem event none l failed = cc
processed_failed_lem event (some _) l failed = refl

unfoldable pub sample_doc : Documented sample_env
unfolding row_or_error_lem create_lem create_failed_lem set_lem set_failed_lem processed_lem
    processed_failed_lem ok-injective
sample_doc = record {
  ledger = λ w. w;
  time_now_keeps = λ w. refl;
  new_uuid_keeps = λ w. refl;
  observe_keeps = λ m w. refl;
  wait_keeps = λ d w. refl;
  random_keeps = λ n w. refl;
  random_bound = λ n w some_n. some_n;
  first_invoice_keeps = λ k w. refl;
  first_invoice_found = λ k w found. row_or_error_lem (w.invoices k) found;
  first_processed_keeps = λ k w. refl;
  first_processed_found = λ k w found. row_or_error_lem (w.processed k) found;
  create_invoice_done = λ inv w done. create_lem inv (w.invoices inv.order_id) w done;
  create_invoice_failed = λ inv w failed. create_failed_lem inv (w.invoices inv.order_id) w failed;
  update_invoice_done = λ k u w here done. set_lem k u (w.invoices k) w here done;
  update_invoice_failed = λ k u w failed. set_failed_lem k u (w.invoices k) w failed;
  create_processed_done = λ row w done. processed_lem row (w.processed row.event_id) w done;
  create_processed_failed =
      λ row w failed. processed_failed_lem row (w.processed row.event_id) w failed;
  write_dlq_done = λ value w done. refl;
  write_dlq_failed = λ value w failed. cc;
  commit_message_done = λ msg w done. refl;
  commit_message_failed = λ msg w failed. cc;
}

-- Nothing has been consumed.
abbrev pub empty_ledger : Ledger
empty_ledger = record {
  invoices = λ k. none;
  processed = λ k. none;
  dead_letters = [];
  commits = [];
}

abbrev invoice_o1 : String → Invoice
invoice_o1 status = record {
  id = "i-1";
  order_id = "o-1";
  amount = record { amount = pos 250; currency = "USD" };
  status = status;
  created_at = sample_time;
  paid_at = none;
}

-- The invoice of o-1 in a status, and nothing else.
abbrev pub ledger_with : Invoice → Ledger
ledger_with inv = record empty_ledger { invoices = update (λ k. none) "o-1" inv }

abbrev pub pending_o1 : Invoice
pending_o1 = invoice_o1 invoice_status_pending

abbrev pub paid_invoice_o1 : Invoice
paid_invoice_o1 = invoice_o1 invoice_status_paid

abbrev pub sample_topics : Topics
sample_topics = record {
  created = "order.created";
  paid = "order.paid";
  cancelled = "order.cancelled";
}

abbrev message : String → String → Message
message topic event_type = record {
  topic = topic;
  partition = pos 0;
  offset = pos 7;
  key = "o-1";
  value = "o-1";
  headers =
      record { key = "order-id"; value = "o-1" }
      ∷ record { key = "event-type"; value = event_type }
      ∷ [];
}

abbrev pub created_message : Message
created_message = message "order.created" "OrderCreated"

abbrev pub paid_message : Message
paid_message = message "order.paid" "OrderPaid"

abbrev pub cancelled_message : Message
cancelled_message = message "order.cancelled" "OrderCancelled"
