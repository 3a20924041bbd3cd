-- ===== src/Lib.antt =====
-- Verification of the order and billing services.
--
-- order_service keeps orders and, in the same transaction, an outbox of events; its relay writes the
-- events to Kafka. billing_service consumes them and keeps an invoice for each order. gRPC servers
-- stand before both. The development models these parts and what passes between them:
--
-- - Order.Model, Order.Validation, Order.Total, Order.Service: order_service/internal/service
--   (order.go, currency.go), domain/model, domain/events, repository. CreateOrder, GetOrder,
--   MarkOrderPaid and CancelOrder are create_order, get_order, mark_order_paid and cancel_order;
--   writeWithOutbox is write_with_outbox, validateItems validate_items, calcTotalUSD calc_total_usd.
--   Order.History runs requests one after the other; Order.Concurrent runs the reads and the writes of
--   requests that are served at the same time, in any order, as Shared.Goroutines keeps them.
--   Order.Lifecycle is the abstract course of an order, which the requests refine.
-- - Order.Columns, Billing.Columns: the JSON columns, JSONItems and the Money of an invoice.
-- - Order.Relay: order_service/internal/outbox. processOnce is process_once, a round of its loop
--   relay_event; Order.Relay.Loop.start is Start by rounds, as many as are wanted.
-- - Order.Grpc: order_service/internal/grpc.
-- - Billing.Model, Billing.Repository, Billing.Service: billing_service/internal/billing_domain,
--   repository and service. HandleOrderCreated, HandleOrderPaid and HandleOrderCancelled are
--   handle_order_created, handle_order_paid and handle_order_cancelled. Billing.Lifecycle is the
--   abstract course of an invoice that they refine. Billing.Concurrent runs the reads and the writes
--   of the handlers of several consumers in any order.
-- - Billing.Handler, Billing.Retry, Billing.Consumer: billing_service/internal/kafka. Handle is
--   handle, Retry retry, processMessage process_message; Billing.Consumer.Loop.start is Start by
--   rounds, as many as are wanted, and consume what it does with the messages that are fetched.
-- - Billing.Query: the reading side, billing_service/internal/query, repository/invoice_read.go and
--   grpc.
-- - Shared: shared/errors, money, currency, middleware and middleware_grpc.
-- - Shared.RequestId, Shared.Logger: shared/requestid and shared/logger. InfoCtx is info_ctx, ErrorCtx
--   error_ctx; Shared.Logger.Requests has the handlers log under the context of the interceptor.
-- - Shared.Config, Shared.Strconv: LoadConfig of both internal/config packages, and the calls of Go's
--   strings and strconv.
-- - Shared.Database: InitDB of both internal/database packages.
-- - Wiring, Pipeline: the topics that both internal/app packages hand out, the relay's messages as the
--   consumer reads them, the invoices that come of the whole outbox in its order, and a payment that
--   comes too early.
-- - Shared.Collectors, Shared.Metrics: shared/observability; Shared.Metrics.Gauges is collectDBMetrics.
-- - Shared.Process, Order.App, Billing.App: Run of both internal/app packages.
-- - Base: numbers, texts, lists and Go's integers.
--
-- State and errors: a call that returns (T, error) is an Act, a function from a world to a result and
-- a world. The databases, the brokers, the clock, the uuid and random generators, encoding/json and
-- Prometheus are not in the repository: the records Environment, RelayEnvironment,
-- QueryEnvironment, StatsEnvironment, ProcessEnvironment, LogEnvironment, Prometheus, Source (of the
-- consumer's loop) and Ticker (of the relay's) hold the calls, and the records whose names end in
-- Documented what their documentation says, as laws. Those of RelayDocumented and TickerDocumented let
-- the requests that are served meanwhile insert PENDING rows under new ids during every call.
-- Billing.Samples, Order.Samples and the modules of examples fill them with concrete functions.
--
-- Numbers: an int64 is an integer kept in range by wrap64, an int32 by wrap32. A float64 is its exact
-- value, rounded to 53 bits after each operation; the search for the surplus bits has 128 rounds,
-- and the numbers met are below 2^128. Retry runs on the number of attempts left, as its loop does;
-- a number is printed by recursion on the order of the numbers.
--
-- Not modelled: the calls of the logger inside the services, on which no result depends, what
-- histograms observe, the generated protobuf code, the mocks, and the JSON formats.
pub mod Base
pub mod Shared
pub mod Order
pub mod Billing
pub mod Wiring
pub mod Pipeline
mod Examples
mod ServerExamples
mod PipelineExamples
mod LogExamples
mod ProcessExamples
