-- ===== src/Files.antt =====
-- The transfer of files from one peer to another: src/transfers/files.
pub mod Chunks
pub mod Directory
pub mod Names
pub mod Session
pub mod States
