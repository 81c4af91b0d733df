-- ===== src/Tests.antt =====
-- Concrete runs, and each theorem at a concrete input.
mod ListDb
mod TimeIndexer
mod Metrics
mod Listener
mod Recovery
mod Network
mod TextJson
mod Wire
mod Report
mod Timeout
mod Delegates
mod Managers
mod Items
mod Small
mod Emitter
mod Stake
mod Validations
mod Collection
mod Pages
mod Indexing
