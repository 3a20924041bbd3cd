-- ===== src/Shared.antt =====
-- The packages under shared/.
pub mod Errors
pub mod Effects
pub mod Strconv
pub mod Money
pub mod Config
pub mod Currency
pub mod Grpc
pub mod Database
pub mod Kafka
pub mod Collectors
pub mod Metrics
pub mod Process
pub mod Goroutines
pub mod RequestId
pub mod Logger
