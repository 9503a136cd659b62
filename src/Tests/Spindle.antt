-- ===== src/Tests/Spindle.antt =====
-- A spindle speed with no low word, over the CAN links; `float` runs in whole millionths.
use fluid_edm.Base.{◌≡◌, refl, none, some, [], inl, arith}
use fluid_edm.Base.Int.{ℤ, pos}
use fluid_edm.Base.Fixed.{micros}
use fluid_edm.Psu.CanLink.{CanPsuLink, CanBus, new_link, can_psu_link, stop_cut}
use fluid_edm.Diel.CanLink.{CanDielLink}
use fluid_edm.Servo.ModeTable.{default_table, idle as idle_mode}
use fluid_edm.Servo.GapServo.{default_servo}
use fluid_edm.Control.Report.{idle, cutting}
use fluid_edm.Control.State.{EdmController, default_timers, new_controller}
use fluid_edm.Realtime.{cw}
use fluid_edm.Spindle.{EdmSpindle, set_state}
use fluid_edm.Spindle.Stop.{set_state-stops}

abbrev bus : CanBus
bus = record { sent = [] }

abbrev cutting_controller : EdmController ℤ CanPsuLink CanDielLink
unfolding new_controller new_link
cutting_controller =
    record (new_controller (new_link bus) default_servo default_table default_timers) {
      state = cutting;
    }

abbrev spindle : EdmSpindle ℤ CanPsuLink CanDielLink
spindle = record {
  ctl = some cutting_controller;
  feed = none;
  diel_temp_setpoint_dc = pos 220;
  diel_default_flush_level = 2;
  current_state = cw;
  current_speed = 300;
}

set_state-stops_example :
    (stopped : EdmController ℤ CanPsuLink CanDielLink) × ((set_state spindle cw 65536).ctl
      ≡ some stopped)
    × (stopped.state ≡ idle)
    × (stopped.mode ≡ idle_mode)
    × (stopped.link ≡ stop_cut cutting_controller.link)
unfolding cutting_controller
set_state-stops_example =
    set_state-stops spindle cutting_controller cw 65536 refl refl (inl (omega arith))
