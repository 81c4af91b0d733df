-- ===== src/Validator.antt =====
-- packages/validator: the KYVE validator of the Log Store.
pub mod RollingConfig
pub mod Metrics
pub mod MetricsSummary
pub mod Heartbeat
pub mod Item
pub mod Managers
pub mod Pipeline
pub mod Report
pub mod Runtime
pub mod NodeManager
pub mod ActivityTimeout
pub mod TimeIndexer
pub mod SystemListener
pub mod SystemRecovery
