-- ===== src/Core.antt =====
-- The vocabulary of the exchange: include/sixchange/core, include/sixchange/config and
-- src/core/EnumNames.h.
pub mod Types
pub mod Enums
pub mod Commands
pub mod Events
pub mod Config
pub mod EnumNames
pub mod Dispatcher
mod Examples
