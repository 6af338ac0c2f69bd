-- ===== src/Engine.antt =====
-- The matching engine: src/engine.
pub mod Order
pub mod PriceLevel
pub mod OrderPool
pub mod FixedOrderMap
pub mod MatchExecution
pub mod OrderBook
pub mod Sequencer
pub mod MatchingEngine
