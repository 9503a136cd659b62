-- ===== src/Tests/Control.antt =====
-- The controller over the CAN link on concrete inputs; `float` runs in whole millionths.
use fluid_edm.Base.{◌≡◌, inl, inr, refl, true, false, some, [], ◌∷◌, arith}
use fluid_edm.Base.Int.{ℤ}
use fluid_edm.Base.Fixed.{micros}
use fluid_edm.Psu.Messages.{WireBreakImminent}
use fluid_edm.Psu.Link.{wire_break}
use fluid_edm.Psu.CanLink.{
  CanPsuLink, CanBus, new_link, can_psu_link, pop_event, pop_front, latest_stats,
}
use fluid_edm.Psu.CanLink.Power.{commanded, obey_all}
use fluid_edm.Diel.Messages.{no_diel_stats}
use fluid_edm.Diel.CanLink.{CanDielLink, new_diel_link, can_diel_link, latest_diel_stats}
use fluid_edm.Servo.ModeTable.{default_table}
use fluid_edm.Servo.GapServo.{default_servo}
use fluid_edm.Control.Report.{armed, cutting, fault, break_relief_state, psu_fault}
use fluid_edm.Control.State.{
  EdmController, default_timers, default_interlock, new_controller, request_cut,
}
use fluid_edm.Control.Tick.{tick, drained}
use fluid_edm.Control.Stages.{readings}
use fluid_edm.Control.Faults.{IsStopped, dielectric_loss_stops, silence_stops}
use fluid_edm.Control.Faults.Unlatch.{critical_break_unlatches}
use fluid_edm.Control.Power.{IsSafe}
use fluid_edm.Control.Power.CanLink.{can_power}
use fluid_edm.Control.Power.Invariant.{Reach-new-IsSafe, here, next, cuts, ticks}
use fluid_edm.Control.Power.Interlock.{power_on_interlock, CoolantReady}
use fluid_edm.Wire.Frame.{new_frame}
use fluid_edm.Wire.Endian.{put_u8, put_u16}
use fluid_edm.Base.Float.{clampf}
use fluid_edm.Psu.Codec.{encode_control, encode_set_mode_bounds}
use fluid_edm.Psu.CanLink.{start_cut, stop_cut, set_mode_bounds, send, next_seq}
use fluid_edm.Servo.ModeTable.{build, params, mode_for_sword, lower_energy}
use fluid_edm.Servo.GapServo.{step, select, choose_velocity}
use fluid_edm.Control.State.{enter_fault, maybe_send_mode_bounds, same_bounds, request_stop}
use fluid_edm.Control.Events.{drain, on_wire_break}
use fluid_edm.Control.Stages.{
  note_window, report_diel, diel_ready_to_cut, check_link, check_diel, run_armed, end_relief,
  clear_severity,
}
use fluid_edm.Control.Tick.{
  prepare, run_servo, apply_servo, run_touch_off, watch_gap, start_hold, watch_stall, build_input,
  write_report,
}

abbrev bus : CanBus
bus = record { sent = [] }

abbrev live_link : CanPsuLink
unfolding new_link
live_link = record (new_link bus) { heartbeat_seen = true; protocol_ok = true }

abbrev module_link : CanDielLink
unfolding new_diel_link
module_link = record (new_diel_link bus) {
  stats = record no_diel_stats { flow_clpm = 40; level_pct = 80 };
  stats_valid = true;
  heartbeat_seen = true;
}

abbrev Controller : Type 0
Controller = EdmController ℤ CanPsuLink CanDielLink

abbrev idle_controller : Controller
unfolding new_controller new_link
idle_controller = new_controller live_link default_servo default_table default_timers

abbrev armed_controller : Controller
unfolding new_controller new_link
armed_controller = record idle_controller { state = armed; s_word = 300 }

-- Its line opens all that a tick over these links runs through.
runs : Unit {0}
unfolding new_controller new_link commanded obey_all tick drained drain pop_event pop_front
    on_wire_break readings note_window report_diel diel_ready_to_cut check_link check_diel run_armed
    end_relief clear_severity enter_fault maybe_send_mode_bounds same_bounds prepare run_servo
    apply_servo run_touch_off watch_gap start_hold watch_stall build_input write_report step select
    choose_velocity clampf build params mode_for_sword lower_energy latest_stats latest_diel_stats
    start_cut stop_cut set_mode_bounds send encode_control encode_set_mode_bounds put_u8 put_u16
    new_frame request_cut request_stop next_seq new_diel_link
runs = tt

armed_off : commanded armed_controller.link ≡ false
unfolding runs
armed_off = refl

armed_on : commanded (tick armed_controller 10).link ≡ true
unfolding runs
armed_on = refl

power_on_interlock_example :
    let c1 = drained armed_controller 10 in
    (c1.state ≡ armed)
    × (c1.link.protocol_ok ≡ true)
    × (c1.link.heartbeat_seen ≡ true)
    × (c1.link.ack_status ≡ 0)
    × CoolantReady c1
unfolding new_controller new_link
power_on_interlock_example = power_on_interlock can_power armed_controller 10 armed_off armed_on

Reach-new-IsSafe_example : IsSafe can_power (tick (request_cut idle_controller 300) 5)
unfolding new_controller new_link
Reach-new-IsSafe_example =
    Reach-new-IsSafe can_power live_link default_servo default_table default_timers
      (tick (request_cut idle_controller 300) 5) armed_off
      (next (next here (cuts idle_controller 300)) (ticks (request_cut idle_controller 300) 5))

abbrev dry_controller : Controller
unfolding new_controller new_link new_diel_link
dry_controller = record idle_controller {
  state = cutting;
  diel = some module_link;
  diel_cfg = record default_interlock { required = true };
}

dielectric_loss_stops_example : IsStopped (tick dry_controller 10)
unfolding runs
dielectric_loss_stops_example =
    dielectric_loss_stops dry_controller 10 module_link refl refl refl
      (inr (inr (module_link.stats, refl, inl (omega arith))))

abbrev silent_controller : Controller
unfolding new_controller new_link
silent_controller = record idle_controller {
  state = cutting;
  have_window = true;
  last_window_change_ms = 100;
}

silence_stops_example : IsStopped (tick silent_controller 301)
unfolding runs
silence_stops_example = silence_stops silent_controller 301 refl refl refl (omega arith)

abbrev critical : WireBreakImminent
critical = record {
  severity = 3;
  cause_flags = 0;
  recent_short_count = 0;
  recent_arc_count = 0;
  ignition_delay_var_ns2 = 0;
  timestamp_ms_since_start = 0;
}

abbrev faulted_controller : Controller
unfolding new_controller new_link
faulted_controller = record idle_controller {
  link = record live_link { events = wire_break critical ∷ [] };
  state = fault;
  reason = psu_fault;
}

critical_break_unlatches_example : (tick faulted_controller 10).state ≡ break_relief_state
unfolding runs
critical_break_unlatches_example =
    critical_break_unlatches faulted_controller 10 live_link critical refl refl (omega arith)
      (omega arith) refl refl refl refl
