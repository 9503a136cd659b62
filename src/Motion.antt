-- ===== src/Motion.antt =====
-- EDM/Motion: the contour that the wire follows.
pub mod Pose4
pub mod ContourBuffer
pub mod PathSampler
pub mod EdmMotion
pub mod EdmCut
