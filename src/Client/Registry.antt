-- ===== src/Client/Registry.antt =====
-- packages/client/src/registry: the calls that the client makes of the contracts.
pub mod Overrides
pub mod TokenManager
pub mod QueryManager
pub mod LogStoreRegistry
