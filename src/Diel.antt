-- ===== src/Diel.antt =====
-- The link to the dielectric module: EDM/Diel.
pub mod Messages
pub mod Codec
pub mod CanLink
pub mod SimLink
