-- ===== src/Psu/Messages.antt =====
-- EDM/Psu/Protocol.h: the identifiers, commands and messages of the power-supply protocol. A record
-- `IsX` says what the integer types of the fields of `X` say.
use fluid_edm.Base.{ℕ, ◌^◌, ◌<◌, ◌≡◌, List, length, All}
use fluid_edm.Base.Int.{ℤ, pos, IsInt16}
use fluid_edm.Wire.Frame.{IsByte}

-- enum Id
abbrev pub id_set_mode_bounds : ℕ
id_set_mode_bounds = 0x010

abbrev pub id_ack_mode_bounds : ℕ
id_ack_mode_bounds = 0x011

abbrev pub id_control : ℕ
id_control = 0x020

abbrev pub id_stats_agg : ℕ
id_stats_agg = 0x100

abbrev pub id_wire_break : ℕ
id_wire_break = 0x200

abbrev pub id_fault : ℕ
id_fault = 0x201

abbrev pub id_arc_burst : ℕ
id_arc_burst = 0x202

abbrev pub id_info : ℕ
id_info = 0x210

abbrev pub id_psu_status : ℕ
id_psu_status = 0x300

abbrev pub protocol_version_supported : ℕ
protocol_version_supported = 1

pub data Control : Type 0 where
  ctl_start_cut ctl_stop_cut ctl_clear_fault ctl_reboot ctl_polarity : Control

-- the enumerator's value
abbrev pub control_code : Control → ℕ
control_code ctl_start_cut = 1
control_code ctl_stop_cut = 2
control_code ctl_clear_fault = 3
control_code ctl_reboot = 4
control_code ctl_polarity = 5

pub record SetModeBounds : Type 0 where
  pub mode_id : ℕ
  pub seq : ℕ
  pub freq_max_khz : ℕ
  pub on_time_max_ns : ℕ
  pub off_time_min_ns : ℕ
  pub peak_i_setpoint_da : ℕ
  pub peak_i_limit_hw_da : ℕ
  pub polarity : ℕ
  pub flags : ℕ
  pub gap_v_arc_mv : ℕ
  pub gap_v_short_mv : ℕ
  pub ignition_timeout_us : ℕ

pub record AckModeBounds : Type 0 where
  pub seq : ℕ
  pub freq_max_khz : ℕ
  pub on_time_max_ns : ℕ
  pub off_time_min_ns : ℕ
  pub peak_i_setpoint_da : ℕ
  pub peak_i_limit_hw_da : ℕ
  pub status : ℕ

pub record StatsAgg : Type 0 where
  pub window_id : ℕ
  pub n_normal : ℕ
  pub n_arc : ℕ
  pub n_short : ℕ
  pub n_open : ℕ
  pub ignition_delay_mean_ns : ℕ
  pub ignition_delay_stddev_ns : ℕ
  pub peak_i_mean_da : ℕ
  pub peak_i_max_da : ℕ
  pub gap_v_recovery_mean_ns : ℕ
  pub energy_delivered_uj : ℕ
  pub temp_gan_dc : ℤ
  pub temp_l_dc : ℤ
  pub dc_link_v_dv : ℕ
  pub dc_link_i_avg_da : ℕ
  pub state : ℕ
  pub mode_id_active : ℕ
  pub flags : ℕ

pub record WireBreakImminent : Type 0 where
  pub severity : ℕ
  pub cause_flags : ℕ
  pub recent_short_count : ℕ
  pub recent_arc_count : ℕ
  pub ignition_delay_var_ns2 : ℕ
  pub timestamp_ms_since_start : ℕ

pub record Fault : Type 0 where
  pub fault_code : ℕ
  pub severity : ℕ
  pub detail : List ℕ

pub record ArcBurst : Type 0 where
  pub consecutive_arcs : ℕ

pub record PsuStatus : Type 0 where
  pub state : ℕ
  pub fpga_version : ℕ
  pub mcu_version : ℕ
  pub protocol_version : ℕ
  pub uptime_s : ℕ
  pub fault_count : ℕ

-- the in-class initialisers, all zero
abbrev pub no_bounds : SetModeBounds
no_bounds = record {
  mode_id = 0;
  seq = 0;
  freq_max_khz = 0;
  on_time_max_ns = 0;
  off_time_min_ns = 0;
  peak_i_setpoint_da = 0;
  peak_i_limit_hw_da = 0;
  polarity = 0;
  flags = 0;
  gap_v_arc_mv = 0;
  gap_v_short_mv = 0;
  ignition_timeout_us = 0;
}

abbrev pub no_stats : StatsAgg
no_stats = record {
  window_id = 0;
  n_normal = 0;
  n_arc = 0;
  n_short = 0;
  n_open = 0;
  ignition_delay_mean_ns = 0;
  ignition_delay_stddev_ns = 0;
  peak_i_mean_da = 0;
  peak_i_max_da = 0;
  gap_v_recovery_mean_ns = 0;
  energy_delivered_uj = 0;
  temp_gan_dc = pos 0;
  temp_l_dc = pos 0;
  dc_link_v_dv = 0;
  dc_link_i_avg_da = 0;
  state = 0;
  mode_id_active = 0;
  flags = 0;
}

pub record IsSetModeBounds (v : SetModeBounds) : Type 0 where
  pub mode_id_fits : v.mode_id < 2 ^ 8
  pub seq_fits : v.seq < 2 ^ 16
  pub freq_max_khz_fits : v.freq_max_khz < 2 ^ 16
  pub on_time_max_ns_fits : v.on_time_max_ns < 2 ^ 16
  pub off_time_min_ns_fits : v.off_time_min_ns < 2 ^ 16
  pub peak_i_setpoint_da_fits : v.peak_i_setpoint_da < 2 ^ 16
  pub peak_i_limit_hw_da_fits : v.peak_i_limit_hw_da < 2 ^ 16
  pub polarity_fits : v.polarity < 2 ^ 8
  pub flags_fits : v.flags < 2 ^ 16
  pub gap_v_arc_mv_fits : v.gap_v_arc_mv < 2 ^ 16
  pub gap_v_short_mv_fits : v.gap_v_short_mv < 2 ^ 16
  pub ignition_timeout_us_fits : v.ignition_timeout_us < 2 ^ 16

pub record IsAckModeBounds (v : AckModeBounds) : Type 0 where
  pub seq_fits : v.seq < 2 ^ 16
  pub freq_max_khz_fits : v.freq_max_khz < 2 ^ 16
  pub on_time_max_ns_fits : v.on_time_max_ns < 2 ^ 16
  pub off_time_min_ns_fits : v.off_time_min_ns < 2 ^ 16
  pub peak_i_setpoint_da_fits : v.peak_i_setpoint_da < 2 ^ 16
  pub peak_i_limit_hw_da_fits : v.peak_i_limit_hw_da < 2 ^ 16
  pub status_fits : v.status < 2 ^ 8

pub record IsStatsAgg (v : StatsAgg) : Type 0 where
  pub window_id_fits : v.window_id < 2 ^ 32
  pub n_normal_fits : v.n_normal < 2 ^ 16
  pub n_arc_fits : v.n_arc < 2 ^ 16
  pub n_short_fits : v.n_short < 2 ^ 16
  pub n_open_fits : v.n_open < 2 ^ 16
  pub ignition_delay_mean_ns_fits : v.ignition_delay_mean_ns < 2 ^ 16
  pub ignition_delay_stddev_ns_fits : v.ignition_delay_stddev_ns < 2 ^ 16
  pub peak_i_mean_da_fits : v.peak_i_mean_da < 2 ^ 16
  pub peak_i_max_da_fits : v.peak_i_max_da < 2 ^ 16
  pub gap_v_recovery_mean_ns_fits : v.gap_v_recovery_mean_ns < 2 ^ 16
  pub energy_delivered_uj_fits : v.energy_delivered_uj < 2 ^ 32
  pub temp_gan_dc_fits : IsInt16 v.temp_gan_dc
  pub temp_l_dc_fits : IsInt16 v.temp_l_dc
  pub dc_link_v_dv_fits : v.dc_link_v_dv < 2 ^ 16
  pub dc_link_i_avg_da_fits : v.dc_link_i_avg_da < 2 ^ 16
  pub state_fits : v.state < 2 ^ 8
  pub mode_id_active_fits : v.mode_id_active < 2 ^ 8
  pub flags_fits : v.flags < 2 ^ 16

pub record IsWireBreakImminent (v : WireBreakImminent) : Type 0 where
  pub severity_fits : v.severity < 2 ^ 8
  pub cause_flags_fits : v.cause_flags < 2 ^ 8
  pub recent_short_count_fits : v.recent_short_count < 2 ^ 16
  pub recent_arc_count_fits : v.recent_arc_count < 2 ^ 16
  pub ignition_delay_var_ns2_fits : v.ignition_delay_var_ns2 < 2 ^ 32
  pub timestamp_ms_since_start_fits : v.timestamp_ms_since_start < 2 ^ 32

pub record IsPsuStatus (v : PsuStatus) : Type 0 where
  pub state_fits : v.state < 2 ^ 8
  pub fpga_version_fits : v.fpga_version < 2 ^ 16
  pub mcu_version_fits : v.mcu_version < 2 ^ 16
  pub protocol_version_fits : v.protocol_version < 2 ^ 16
  pub uptime_s_fits : v.uptime_s < 2 ^ 32
  pub fault_count_fits : v.fault_count < 2 ^ 16

pub record IsFault (v : Fault) : Type 0 where
  pub code_fits : v.fault_code < 2 ^ 8
  pub severity_fits : v.severity < 2 ^ 8
  pub detail_size : length v.detail ≡ 6
  pub detail_bytes : All IsByte v.detail
