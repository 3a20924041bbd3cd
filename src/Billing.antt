-- ===== src/Billing.antt =====
-- billing_service.
pub mod Model
pub mod Columns
pub mod Environment
pub mod Lifecycle
pub mod Repository
pub mod Service
pub mod Handler
pub mod Retry
pub mod Consumer
pub mod Concurrent
pub mod Query
pub mod Samples
pub mod App
mod Examples
mod ConcurrentExamples
mod QueryExamples
mod LoopExamples
mod RetryExamples
