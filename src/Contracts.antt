-- ===== src/Contracts.antt =====
-- packages/contracts: what the TypeScript code relies on of a contract's state.
pub mod ReportManager
