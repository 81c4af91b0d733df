-- ===== src/Shared.antt =====
-- packages/shared: what the packages share.
pub mod Retry
pub mod Managers
pub mod TokenPrice
pub mod PrepareStake
