-- ===== src/Wire.antt =====
-- The CAN-FD frame and the byte order of its fields: EDM/Can/CanFrame.h and EDM/Psu/Endian.h.
pub mod Frame
pub mod Endian
