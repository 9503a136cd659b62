-- ===== src/Feed.antt =====
-- EDM/Feed: the wire feed and its tension.
pub mod TensionController
pub mod Hx711
pub mod StepGen
pub mod WireFeed
