-- ===== src/Psu.antt =====
-- The link to the power supply: EDM/Psu.
pub mod Messages
pub mod Codec
pub mod Link
pub mod CanLink
pub mod SimLink
