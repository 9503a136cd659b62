-- ===== src/Control/Report.antt =====
-- EDM/Servo/EdmReport.h and FaultReason.h: the telemetry snapshot, the states and the reasons. The
-- snapshot holds the enumerators' values, as the source does.
use fluid_edm.Base.{ℕ, zero, suc, Bool, false}
use fluid_edm.Base.Int.{ℤ, pos}
use fluid_edm.Servo.GapServo.{ServoState, hold, track, retract, arc_hold, break_relief}

pub data EdmState : Type 0 where
  idle armed touch_off cutting hold_state break_relief_state stall_fault fault : EdmState

pub data FaultReason : Type 0 where
  no_fault ack_timeout protocol_mismatch touch_off_no_contact : FaultReason
  servo_stall heartbeat_lost psu_fault sensor_disagree : FaultReason
  dielectric_not_ready dielectric_lost : FaultReason

-- `uint8_t(state)` of the three enumerations
abbrev pub state_code : EdmState → ℕ
state_code idle = 0
state_code armed = 1
state_code touch_off = 2
state_code cutting = 3
state_code hold_state = 4
state_code break_relief_state = 5
state_code stall_fault = 6
state_code fault = 7

-- `EdmState(code)`; the codes above 7 do not occur
abbrev pub state_of : ℕ → EdmState
state_of zero = idle
state_of (suc zero) = armed
state_of (suc (suc zero)) = touch_off
state_of (suc (suc (suc zero))) = cutting
state_of (suc (suc (suc (suc zero)))) = hold_state
state_of (suc (suc (suc (suc (suc zero))))) = break_relief_state
state_of (suc (suc (suc (suc (suc (suc zero)))))) = stall_fault
state_of (suc (suc (suc (suc (suc (suc (suc n))))))) = fault

abbrev pub reason_code : FaultReason → ℕ
reason_code no_fault = 0
reason_code ack_timeout = 1
reason_code protocol_mismatch = 2
reason_code touch_off_no_contact = 3
reason_code servo_stall = 4
reason_code heartbeat_lost = 5
reason_code psu_fault = 6
reason_code sensor_disagree = 7
reason_code dielectric_not_ready = 8
reason_code dielectric_lost = 9

abbrev pub servo_code : ServoState → ℕ
servo_code hold = 0
servo_code track = 1
servo_code retract = 2
servo_code arc_hold = 3
servo_code break_relief = 4

pub record EdmReport : Type 0 where
  pub window_id : ℕ
  pub psu_state : ℕ
  pub connected : Bool
  pub protocol_ok : Bool
  pub last_ack_status : ℕ
  pub controller_state : ℕ
  pub fault_reason : ℕ
  pub servo_state : ℕ
  pub active_mode_id : ℕ
  pub s_word : ℕ
  pub n_normal : ℕ
  pub n_arc : ℕ
  pub n_short : ℕ
  pub n_open : ℕ
  pub total_pulses : ℕ
  pub open_ratio_milli : ℤ
  pub short_ratio_milli : ℤ
  pub arc_ratio_milli : ℤ
  pub v_cmd_um_s : ℤ
  pub g_milli : ℤ
  pub g_target_milli : ℤ
  pub e_filtered_milli : ℤ
  pub integrator_milli : ℤ
  pub feed_cap_pct : ℕ
  pub wire_break_sev : ℕ
  pub peak_i_mean_da : ℕ
  pub peak_i_max_da : ℕ
  pub energy_delivered_uj : ℕ
  pub temp_gan_dc : ℤ
  pub temp_l_dc : ℤ
  pub dc_link_v_dv : ℕ
  pub flags : ℕ
  pub diel_present : Bool
  pub diel_pump_on : ℕ
  pub diel_flush_level : ℕ
  pub diel_level_pct : ℕ
  pub diel_filter_pct : ℕ
  pub diel_flush_mbar : ℕ
  pub diel_flow_clpm : ℕ
  pub diel_conductivity_us : ℕ
  pub diel_temp_dc : ℤ
  pub diel_temp_set_dc : ℤ
  pub diel_flags : ℕ

-- the in-class initialisers
abbrev pub no_report : EdmReport
no_report = record {
  window_id = 0;
  psu_state = 0;
  connected = false;
  protocol_ok = false;
  last_ack_status = 0;
  controller_state = 0;
  fault_reason = 0;
  servo_state = 0;
  active_mode_id = 0;
  s_word = 0;
  n_normal = 0;
  n_arc = 0;
  n_short = 0;
  n_open = 0;
  total_pulses = 0;
  open_ratio_milli = pos 0;
  short_ratio_milli = pos 0;
  arc_ratio_milli = pos 0;
  v_cmd_um_s = pos 0;
  g_milli = pos 0;
  g_target_milli = pos 0;
  e_filtered_milli = pos 0;
  integrator_milli = pos 0;
  feed_cap_pct = 100;
  wire_break_sev = 0;
  peak_i_mean_da = 0;
  peak_i_max_da = 0;
  energy_delivered_uj = 0;
  temp_gan_dc = pos 0;
  temp_l_dc = pos 0;
  dc_link_v_dv = 0;
  flags = 0;
  diel_present = false;
  diel_pump_on = 0;
  diel_flush_level = 0;
  diel_level_pct = 0;
  diel_filter_pct = 0;
  diel_flush_mbar = 0;
  diel_flow_clpm = 0;
  diel_conductivity_us = 0;
  diel_temp_dc = pos 0;
  diel_temp_set_dc = pos 0;
  diel_flags = 0;
}
