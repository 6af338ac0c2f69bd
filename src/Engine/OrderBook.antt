-- ===== src/Engine/OrderBook.antt =====
-- The limit order book: src/engine/OrderBook.h and OrderBook.cpp. Log lines are left out: they
-- change no state of the book.
pub mod CancelReport
pub mod State
pub mod Contents
pub mod Best
pub mod Invariant
pub mod Resting
pub mod Unresting
pub mod Whole
pub mod Settling
pub mod Trading
pub mod Removal
pub mod Retiring
pub mod PriceTime
pub mod Ladder
pub mod Rounds
pub mod Steps
pub mod Loop
pub mod Outcomes
pub mod Refinement
pub mod Construction
pub mod Lifecycle
pub mod Withdrawal
pub mod Admitting
pub mod Cancelling
pub mod Execution
mod Examples
pub mod Admission
pub mod Matching
pub mod Cancellation
