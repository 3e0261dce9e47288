-- ===== src/Managers.antt =====
-- The managers of transfers: src/managers.
pub mod Files
