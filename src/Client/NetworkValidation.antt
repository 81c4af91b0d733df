-- ===== src/Client/NetworkValidation.antt =====
-- packages/client/src/utils/networkValidation: does the network confirm the answer of one node?
pub mod Values
pub mod StorageMatrix
pub mod Propagates
pub mod Completion
pub mod QueryInput
pub mod Collection
pub mod Validation
