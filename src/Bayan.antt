-- ===== src/Bayan.antt =====
-- The finder of duplicate files: 08_bayan.
pub mod Storage
pub mod Crawler
pub mod Computer
pub mod Duplicates
pub mod Walk
