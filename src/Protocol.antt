-- ===== src/Protocol.antt =====
-- packages/protocol: the messages, their wire format and the report.
pub mod Js
pub mod Message
pub mod Registry
pub mod Wire
pub mod Report
pub mod Validations
