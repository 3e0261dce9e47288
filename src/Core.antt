-- ===== src/Core.antt =====
-- The network of peers: src/core.
pub mod Lists
pub mod Connectivity
pub mod Discovery
pub mod Dispatch
pub mod Kademlia
pub mod Search
pub mod Acceptor
pub mod Connector
