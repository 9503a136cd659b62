-- ===== src/Control.antt =====
-- The controller of the cutting process: EDM/Control.
pub mod Report
pub mod State
pub mod Events
pub mod Stages
pub mod Tick
pub mod Power
pub mod Faults
