-- ===== src/Psu/Codec/Layout.antt =====
-- The codecs against the layout tables of the protocol (comments of EDM/Psu/Protocol.h): what the
-- encoder writes is read back at the documented offsets, and what the peer writes there is decoded.
use fluid_edm.Base.{◌≡◌, some}
use fluid_edm.Wire.Frame.{CanFrame, new_frame}
use fluid_edm.Wire.Endian.{
  put_u8, put_u16, put_u32, put_i16, get_u8, get_u16, get_u32, get_i16, bytes16, bytes32, byte_fits,
  bytes_i16,
}
use fluid_edm.Psu.Messages.{
  SetModeBounds, StatsAgg, PsuStatus, IsSetModeBounds, IsStatsAgg, IsPsuStatus, id_stats_agg,
  id_psu_status, WireBreakImminent, IsWireBreakImminent, id_wire_break, AckModeBounds,
  IsAckModeBounds, id_ack_mode_bounds,
}
use fluid_edm.Psu.Codec.{
  encode_set_mode_bounds, decode_stats_agg, decode_psu_status, decode_wire_break,
  decode_ack_mode_bounds,
}

-- The layout of SET_MODE_BOUNDS as the power supply reads it.
abbrev pub read_set_mode_bounds : CanFrame → SetModeBounds
unfolding get_u8 get_u16
read_set_mode_bounds f =
    let d = f.data_bytes in
    record {
      mode_id = get_u8 d 0;
      seq = get_u16 d 1;
      freq_max_khz = get_u16 d 3;
      on_time_max_ns = get_u16 d 5;
      off_time_min_ns = get_u16 d 7;
      peak_i_setpoint_da = get_u16 d 9;
      peak_i_limit_hw_da = get_u16 d 11;
      polarity = get_u8 d 15;
      flags = get_u16 d 16;
      gap_v_arc_mv = get_u16 d 18;
      gap_v_short_mv = get_u16 d 20;
      ignition_timeout_us = get_u16 d 22;
    }

-- Whatever mode bounds are sent, the power supply reads back every field at its documented offset,
-- when the fields lie in the ranges of their integer types.
pub read-encode_set_mode_bounds :
    (v : SetModeBounds) → IsSetModeBounds v → read_set_mode_bounds (encode_set_mode_bounds v) ≡ v
unfolding encode_set_mode_bounds read_set_mode_bounds new_frame put_u8 put_u16 get_u8 get_u16
read-encode_set_mode_bounds v h = λ i. record {
  mode_id = byte_fits v.mode_id h.mode_id_fits i;
  seq = bytes16 v.seq h.seq_fits i;
  freq_max_khz = bytes16 v.freq_max_khz h.freq_max_khz_fits i;
  on_time_max_ns = bytes16 v.on_time_max_ns h.on_time_max_ns_fits i;
  off_time_min_ns = bytes16 v.off_time_min_ns h.off_time_min_ns_fits i;
  peak_i_setpoint_da = bytes16 v.peak_i_setpoint_da h.peak_i_setpoint_da_fits i;
  peak_i_limit_hw_da = bytes16 v.peak_i_limit_hw_da h.peak_i_limit_hw_da_fits i;
  polarity = byte_fits v.polarity h.polarity_fits i;
  flags = bytes16 v.flags h.flags_fits i;
  gap_v_arc_mv = bytes16 v.gap_v_arc_mv h.gap_v_arc_mv_fits i;
  gap_v_short_mv = bytes16 v.gap_v_short_mv h.gap_v_short_mv_fits i;
  ignition_timeout_us = bytes16 v.ignition_timeout_us h.ignition_timeout_us_fits i;
}

-- STATS_AGG as the power supply writes it.
pub stats_frame : StatsAgg → CanFrame
stats_frame v =
    let f = new_frame id_stats_agg 38 in
    let d0 = put_u32 f.data_bytes 0 v.window_id in
    let d1 = put_u16 d0 4 v.n_normal in
    let d2 = put_u16 d1 6 v.n_arc in
    let d3 = put_u16 d2 8 v.n_short in
    let d4 = put_u16 d3 10 v.n_open in
    let d5 = put_u16 d4 12 v.ignition_delay_mean_ns in
    let d6 = put_u16 d5 14 v.ignition_delay_stddev_ns in
    let d7 = put_u16 d6 16 v.peak_i_mean_da in
    let d8 = put_u16 d7 18 v.peak_i_max_da in
    let d9 = put_u16 d8 20 v.gap_v_recovery_mean_ns in
    let d10 = put_u32 d9 22 v.energy_delivered_uj in
    let d11 = put_i16 d10 26 v.temp_gan_dc in
    let d12 = put_i16 d11 28 v.temp_l_dc in
    let d13 = put_u16 d12 30 v.dc_link_v_dv in
    let d14 = put_u16 d13 32 v.dc_link_i_avg_da in
    let d15 = put_u8 d14 34 v.state in
    let d16 = put_u8 d15 35 v.mode_id_active in
    let d17 = put_u16 d16 36 v.flags in record f { data_bytes = d17 }

-- A STATS_AGG frame that the power supply writes from values in range is decoded to just these values.
pub decode_stats_agg-stats_frame :
    (v : StatsAgg) → IsStatsAgg v → decode_stats_agg (stats_frame v) ≡ some v
unfolding decode_stats_agg stats_frame new_frame put_u8 put_u16 put_u32 put_i16 get_u8 get_u16
    get_u32 get_i16
decode_stats_agg-stats_frame v h = λ i. some (record {
  window_id = bytes32 v.window_id h.window_id_fits i;
  n_normal = bytes16 v.n_normal h.n_normal_fits i;
  n_arc = bytes16 v.n_arc h.n_arc_fits i;
  n_short = bytes16 v.n_short h.n_short_fits i;
  n_open = bytes16 v.n_open h.n_open_fits i;
  ignition_delay_mean_ns = bytes16 v.ignition_delay_mean_ns h.ignition_delay_mean_ns_fits i;
  ignition_delay_stddev_ns = bytes16 v.ignition_delay_stddev_ns h.ignition_delay_stddev_ns_fits i;
  peak_i_mean_da = bytes16 v.peak_i_mean_da h.peak_i_mean_da_fits i;
  peak_i_max_da = bytes16 v.peak_i_max_da h.peak_i_max_da_fits i;
  gap_v_recovery_mean_ns = bytes16 v.gap_v_recovery_mean_ns h.gap_v_recovery_mean_ns_fits i;
  energy_delivered_uj = bytes32 v.energy_delivered_uj h.energy_delivered_uj_fits i;
  temp_gan_dc = bytes_i16 v.temp_gan_dc h.temp_gan_dc_fits i;
  temp_l_dc = bytes_i16 v.temp_l_dc h.temp_l_dc_fits i;
  dc_link_v_dv = bytes16 v.dc_link_v_dv h.dc_link_v_dv_fits i;
  dc_link_i_avg_da = bytes16 v.dc_link_i_avg_da h.dc_link_i_avg_da_fits i;
  state = byte_fits v.state h.state_fits i;
  mode_id_active = byte_fits v.mode_id_active h.mode_id_active_fits i;
  flags = bytes16 v.flags h.flags_fits i;
})

-- PSU_STATUS as the power supply writes it.
pub status_frame : PsuStatus → CanFrame
status_frame v =
    let f = new_frame id_psu_status 13 in
    let d0 = put_u8 f.data_bytes 0 v.state in
    let d1 = put_u16 d0 1 v.fpga_version in
    let d2 = put_u16 d1 3 v.mcu_version in
    let d3 = put_u16 d2 5 v.protocol_version in
    let d4 = put_u32 d3 7 v.uptime_s in
    let d5 = put_u16 d4 11 v.fault_count in record f { data_bytes = d5 }

-- A PSU_STATUS frame that the power supply writes from values in range is decoded to just these values.
pub decode_psu_status-status_frame :
    (v : PsuStatus) → IsPsuStatus v → decode_psu_status (status_frame v) ≡ some v
unfolding decode_psu_status status_frame new_frame put_u8 put_u16 put_u32 put_i16 get_u8 get_u16
    get_u32 get_i16
decode_psu_status-status_frame v h = λ i. some (record {
  state = byte_fits v.state h.state_fits i;
  fpga_version = bytes16 v.fpga_version h.fpga_version_fits i;
  mcu_version = bytes16 v.mcu_version h.mcu_version_fits i;
  protocol_version = bytes16 v.protocol_version h.protocol_version_fits i;
  uptime_s = bytes32 v.uptime_s h.uptime_s_fits i;
  fault_count = bytes16 v.fault_count h.fault_count_fits i;
})

-- WIRE_BREAK_IMMINENT as the power supply writes it.
pub wire_break_frame : WireBreakImminent → CanFrame
wire_break_frame v =
    let f = new_frame id_wire_break 14 in
    let d0 = put_u8 f.data_bytes 0 v.severity in
    let d1 = put_u8 d0 1 v.cause_flags in
    let d2 = put_u16 d1 2 v.recent_short_count in
    let d3 = put_u16 d2 4 v.recent_arc_count in
    let d4 = put_u32 d3 6 v.ignition_delay_var_ns2 in
    let d5 = put_u32 d4 10 v.timestamp_ms_since_start in record f { data_bytes = d5 }

-- A WIRE_BREAK_IMMINENT frame that the power supply writes from values in range is decoded to just these values.
pub decode_wire_break-wire_break_frame :
    (v : WireBreakImminent)
    → IsWireBreakImminent v
    → decode_wire_break (wire_break_frame v) ≡ some v
unfolding decode_wire_break wire_break_frame new_frame put_u8 put_u16 put_u32 put_i16 get_u8 get_u16
    get_u32 get_i16
decode_wire_break-wire_break_frame v h = λ i. some (record {
  severity = byte_fits v.severity h.severity_fits i;
  cause_flags = byte_fits v.cause_flags h.cause_flags_fits i;
  recent_short_count = bytes16 v.recent_short_count h.recent_short_count_fits i;
  recent_arc_count = bytes16 v.recent_arc_count h.recent_arc_count_fits i;
  ignition_delay_var_ns2 = bytes32 v.ignition_delay_var_ns2 h.ignition_delay_var_ns2_fits i;
  timestamp_ms_since_start = bytes32 v.timestamp_ms_since_start h.timestamp_ms_since_start_fits i;
})

-- ACK_MODE_BOUNDS as the power supply writes it.
pub ack_frame : AckModeBounds → CanFrame
ack_frame v =
    let f = new_frame id_ack_mode_bounds 13 in
    let d0 = put_u16 f.data_bytes 0 v.seq in
    let d1 = put_u16 d0 2 v.freq_max_khz in
    let d2 = put_u16 d1 4 v.on_time_max_ns in
    let d3 = put_u16 d2 6 v.off_time_min_ns in
    let d4 = put_u16 d3 8 v.peak_i_setpoint_da in
    let d5 = put_u16 d4 10 v.peak_i_limit_hw_da in
    let d6 = put_u8 d5 12 v.status in record f { data_bytes = d6 }

-- A ACK_MODE_BOUNDS frame that the power supply writes from values in range is decoded to just these values.
pub decode_ack_mode_bounds-ack_frame :
    (v : AckModeBounds) → IsAckModeBounds v → decode_ack_mode_bounds (ack_frame v) ≡ some v
unfolding decode_ack_mode_bounds ack_frame new_frame put_u8 put_u16 put_u32 put_i16 get_u8 get_u16
    get_u32 get_i16
decode_ack_mode_bounds-ack_frame v h = λ i. some (record {
  seq = bytes16 v.seq h.seq_fits i;
  freq_max_khz = bytes16 v.freq_max_khz h.freq_max_khz_fits i;
  on_time_max_ns = bytes16 v.on_time_max_ns h.on_time_max_ns_fits i;
  off_time_min_ns = bytes16 v.off_time_min_ns h.off_time_min_ns_fits i;
  peak_i_setpoint_da = bytes16 v.peak_i_setpoint_da h.peak_i_setpoint_da_fits i;
  peak_i_limit_hw_da = bytes16 v.peak_i_limit_hw_da h.peak_i_limit_hw_da_fits i;
  status = byte_fits v.status h.status_fits i;
})
