-- ===== src/Avails.antt =====
-- The shared pieces: src/avails.
pub mod Bytes
pub mod Wire
pub mod Books
pub mod Cache
pub mod Peers
pub mod Connect
