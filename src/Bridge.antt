-- ===== src/Bridge.antt =====
-- The daemon and the driver together, through the sample rings of the shared region.
pub mod Downstream
pub mod Upstream
