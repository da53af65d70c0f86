-- ===== src/Ledger.antt =====
-- The ledger service.
pub mod Balance
pub mod Gl
pub mod Entry
pub mod Transfer
pub mod Reversal
pub mod Books
pub mod Replay
