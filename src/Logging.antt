-- ===== src/Logging.antt =====
-- src/logging and include/sixchange/logging.
pub mod SpscRing
pub mod LogRecord
pub mod Format
pub mod AsyncFileLogger
