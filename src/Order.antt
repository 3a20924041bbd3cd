-- ===== src/Order.antt =====
-- order_service.
pub mod Model
pub mod Columns
pub mod Validation
pub mod Total
pub mod Environment
pub mod Service
pub mod History
pub mod Lifecycle
pub mod Concurrent
pub mod Relay
pub mod Grpc
pub mod Samples
pub mod App
mod Examples
mod RelayExamples
mod CourseExamples
