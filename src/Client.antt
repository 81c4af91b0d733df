-- ===== src/Client.antt =====
-- packages/client: the client of the Log Store.
pub mod NetworkValidation
pub mod StaleCache
pub mod SchemaManager
pub mod NodeList
pub mod Queries
pub mod Events
pub mod HttpUtil
pub mod Registry
pub mod GraphQl
pub mod Indexing
