-- ===== src/JoinServer.antt =====
-- The join server: 11_join_server.
pub mod Value
pub mod Row
pub mod Table
pub mod Command
pub mod Database
pub mod Parser
pub mod Session
