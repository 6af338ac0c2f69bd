-- ===== src/Protocol.antt =====
-- The text protocol: include/sixchange/protocol and src/protocol.
pub mod Messages
pub mod Cursor
pub mod Words
pub mod Parsing
pub mod TextCodec
