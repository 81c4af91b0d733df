-- ===== src/Cli.antt =====
-- packages/cli: the command line.
pub mod ErrorTypes
pub mod Utils
