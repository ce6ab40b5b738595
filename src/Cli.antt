-- ===== src/Cli.antt =====
-- internal/cli
pub mod Args
