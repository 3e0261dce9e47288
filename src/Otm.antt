-- ===== src/Otm.antt =====
-- One-to-many transfers: src/transfers/otm.
pub mod Tree
pub mod Relay
pub mod Hypercube
pub mod Inform
pub mod Receiver
pub mod FilesRelay
