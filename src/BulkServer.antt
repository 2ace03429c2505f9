-- ===== src/BulkServer.antt =====
-- The bulk server, whose connections share one buffer: 10_bulk_server.
pub mod Accumulator
pub mod State
pub mod Printer
pub mod Controller
