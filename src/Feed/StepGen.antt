-- ===== src/Feed/StepGen.antt =====
-- EDM/Feed/StepGen.cpp and StepGen.h: the step generator. The levels of its three pins are fields. The
-- set-up of the hardware timer is still open in the source, and so is the arming in `onTimer`.
pub mod Pulses
use fluid_edm.Base.{
  ℕ, zero, suc, ◌*◌, ◌/◌, ◌%◌, ◌^◌, Bool, true, false, not, if◌then◌else◌, ◌==◌, List, [], ◌∷◌,
}
use fluid_edm.Base.Int.{ℤ, pos, negsuc, ltb_ℤ, pos_part, neg_part}

pub record StepGen : Type 0 where
  -- 0 is parked
  pub half_period_ticks : ℕ
  pub dir_level : Bool
  pub step_level : Bool
  pub step_pin : Bool
  pub dir_pin : Bool
  pub disable_pin : Bool
  pub timer_num : ℤ

-- the in-class initialisers; the pins are not driven yet
abbrev pub new_step_gen : StepGen
new_step_gen = record {
  half_period_ticks = 0;
  dir_level = false;
  step_level = false;
  step_pin = false;
  dir_pin = false;
  disable_pin = false;
  timer_num = negsuc 0;
}

abbrev pub timer_hz : ℕ
timer_hz = 1_000_000

-- DISABLE is high when the motor is off.
abbrev pub enable : StepGen → Bool → StepGen
enable g on = record g { disable_pin = not on }

unfoldable pub begin_step_gen : StepGen → ℤ → StepGen
begin_step_gen g timer_num =
    enable (record g { timer_num = timer_num; step_pin = false; dir_pin = g.dir_level }) false

-- `uint32_t(std::abs(steps_per_s))`
abbrev pub magnitude : ℤ → ℕ
magnitude (pos n) = n
magnitude (negsuc n) = suc n

-- The clamp of a half period that is 0. At the smallest `int32_t` the source divides by zero.
abbrev pub half_period : ℤ → ℕ
half_period steps_per_s =
    let half = timer_hz / (2 * magnitude steps_per_s % 2 ^ 32) in
    if magnitude steps_per_s == 0 then 0 else if half == 0 then 1 else half

unfoldable pub set_rate : StepGen → ℤ → StepGen
set_rate g steps_per_s =
    let dir = ltb_ℤ steps_per_s (pos 0) in
    record g { dir_level = dir; dir_pin = dir; half_period_ticks = half_period steps_per_s }

unfoldable pub on_timer : StepGen → StepGen
on_timer g =
    if g.half_period_ticks == 0
    then g
    else record g { step_level = not g.step_level; step_pin = not g.step_level }
