-- ===== src/Transfers.antt =====
-- Rumors that spread among peers: src/transfers.
pub mod Rumor
pub mod Status
