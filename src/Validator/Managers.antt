-- ===== src/Validator/Managers.antt =====
-- packages/validator/src/managers: what the validator reads from the contracts and the chain.
pub mod FindBlock
pub mod LastReport
pub mod BrokerNodes
pub mod Stores
pub mod Sources
