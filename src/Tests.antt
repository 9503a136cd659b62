-- ===== src/Tests.antt =====
-- Runs of the model on concrete inputs, and the theorems at inputs that meet their hypotheses.
mod Wire
mod Servo
mod Control
mod Feed
mod Sim
mod Motion
mod Commands
mod Text
mod Planner
mod Flow
mod Realtime
mod Report
mod Json
mod Spindle
