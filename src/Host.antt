-- ===== src/Host.antt =====
-- The host program webcm.cpp.
pub mod Machine
pub mod Fetches
pub mod Headers
pub mod Exchange
pub mod Softyield
pub mod Ledger
pub mod Returns
pub mod Program
pub mod Board
mod Tests
