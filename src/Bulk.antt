-- ===== src/Bulk.antt =====
-- The bulk command grouper: 07_bulk.
pub mod State
pub mod Parser
pub mod Printer
