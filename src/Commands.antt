-- ===== src/Commands.antt =====
-- The commands (src/commands).
pub mod Build
