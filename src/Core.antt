-- ===== src/Core.antt =====
-- src/core: the errors and the logger.
pub mod Error
pub mod Logger
