-- ===== src/Tests.antt =====
-- The theorems at concrete inputs: a relay of three peers, an overlay of five, messages of a few
-- bytes.
mod Core
mod Directories
mod Managers
mod Network
mod Search
mod Overlay
mod Relays
mod States
mod Stores
mod Transfer
mod Wires
