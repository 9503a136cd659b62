-- ===== src/Servo.antt =====
-- The gap servo and the table of energy modes: EDM/Servo.
pub mod ModeTable
pub mod GapServo
