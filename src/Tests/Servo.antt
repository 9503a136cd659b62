-- ===== src/Tests/Servo.antt =====
-- The mode table and the gap servo on concrete inputs; `float` runs in whole millionths.
use fluid_edm.Base.{◌≡◌, ◌↔◌, inl, refl, true, false, arith}
use fluid_edm.Base.Int.{ℤ, pos}
use fluid_edm.Base.Fixed.{micros, micros-IsFloat}
use fluid_edm.Servo.ModeTable.{finish, ModeTable, default_table, default_params, mode_for_sword}
use fluid_edm.Servo.ModeTable.Bands.{mode_for_sword_iff, InBand}
use fluid_edm.Servo.GapServo.{
  ServoConfig, GapServoInput, default_servo, servo_reset, step, select, retract,
}
use fluid_edm.Servo.GapServo.Safety.{IsServoConfig, step_no_advance, step_capped}

abbrev adaptive_table : ModeTable
adaptive_table = record default_table {
  adaptive_setpoint = true;
  rough_params = record default_params {
    mode_id = 1;
    peak_i_setpoint_da = 300;
    peak_i_limit_hw_da = 260;
  };
}

abbrev servo_config : ServoConfig ℤ
servo_config = default_servo

abbrev shorted : GapServoInput ℤ
shorted = record {
  valid = true;
  open_ratio = pos 0;
  short_ratio = pos 900_000;
  arc_ratio = pos 50_000;
  normal_ratio = pos 50_000;
  ign_delay_norm = pos 0;
  total_pulses = 100;
  feed_cap_mult = pos 0;
  force_break_relief = false;
  in_touch_off = false;
}

servo_config-IsServoConfig : IsServoConfig servo_config
servo_config-IsServoConfig = record { feed_sign = refl; retract_sign = refl; ordered = refl }

mode_for_sword_iff_example :
    (mode_for_sword default_table 300 ≡ finish) ↔ InBand default_table finish 300
mode_for_sword_iff_example = mode_for_sword_iff default_table 300 finish (omega arith)

retracts : (step servo_config servo_reset shorted).state ≡ retract
unfolding step select
retracts = refl

step_no_advance_example :
    micros.lt (pos 0) (step servo_config servo_reset shorted).v_cmd_mm_min ≡ false
step_no_advance_example =
    step_no_advance micros-IsFloat servo_config servo_config-IsServoConfig servo_reset shorted
      (inl retracts)

step_capped_example : micros.lt (pos 0) (step servo_config servo_reset shorted).v_cmd_mm_min ≡ false
step_capped_example =
    step_capped micros-IsFloat servo_config servo_config-IsServoConfig servo_reset shorted refl
