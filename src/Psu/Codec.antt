-- ===== src/Psu/Codec.antt =====
-- EDM/Psu/Protocol.cpp: the encoders of outgoing and the decoders of incoming frames. A decoder
-- returns `none` where the source returns false.
pub mod Layout
use fluid_edm.Base.{
  ℕ, ◌+◌, ◌-◌, ◌%◌, ◌^◌, Bool, not, ◌||◌, Option, none, some, List, [], ◌∷◌, ◌++◌, ltb, ◌==◌,
  if◌then◌else◌, set, get_or, take, drop, replicate,
}
use fluid_edm.Wire.Frame.{CanFrame, new_frame}
use fluid_edm.Wire.Endian.{put_u8, put_u16, get_u8, get_u16, get_u32, get_i16}
use fluid_edm.Psu.Messages.{
  Control, control_code, SetModeBounds, AckModeBounds, StatsAgg, WireBreakImminent, Fault, ArcBurst,
  PsuStatus, id_set_mode_bounds, id_ack_mode_bounds, id_control, id_stats_agg, id_wire_break,
  id_fault, id_arc_burst, id_info, id_psu_status,
}

-- one line for each `put` of the source; the payload is passed on
unfoldable pub encode_set_mode_bounds : SetModeBounds → CanFrame
encode_set_mode_bounds v =
    let f = new_frame id_set_mode_bounds 24 in
    let d0 = put_u8 f.data_bytes 0 v.mode_id in
    let d1 = put_u16 d0 1 v.seq in
    let d2 = put_u16 d1 3 v.freq_max_khz in
    let d3 = put_u16 d2 5 v.on_time_max_ns in
    let d4 = put_u16 d3 7 v.off_time_min_ns in
    let d5 = put_u16 d4 9 v.peak_i_setpoint_da in
    let d6 = put_u16 d5 11 v.peak_i_limit_hw_da in
    let d7 = put_u8 d6 15 v.polarity in
    let d8 = put_u16 d7 16 v.flags in
    let d9 = put_u16 d8 18 v.gap_v_arc_mv in
    let d10 = put_u16 d9 20 v.gap_v_short_mv in
    let d11 = put_u16 d10 22 v.ignition_timeout_us in record f { data_bytes = d11 }

unfoldable pub encode_control : Control → ℕ → CanFrame
encode_control cmd arg =
    let f = new_frame id_control 2 in
    record f { data_bytes = set (set f.data_bytes 0 (control_code cmd)) 1 (arg % 2 ^ 8) }

unfoldable pub decode_stats_agg : CanFrame → Option StatsAgg
decode_stats_agg f =
    let d = f.data_bytes in
    if not (f.id == id_stats_agg) || ltb f.len 38
    then none
    else some (record {
      window_id = get_u32 d 0;
      n_normal = get_u16 d 4;
      n_arc = get_u16 d 6;
      n_short = get_u16 d 8;
      n_open = get_u16 d 10;
      ignition_delay_mean_ns = get_u16 d 12;
      ignition_delay_stddev_ns = get_u16 d 14;
      peak_i_mean_da = get_u16 d 16;
      peak_i_max_da = get_u16 d 18;
      gap_v_recovery_mean_ns = get_u16 d 20;
      energy_delivered_uj = get_u32 d 22;
      temp_gan_dc = get_i16 d 26;
      temp_l_dc = get_i16 d 28;
      dc_link_v_dv = get_u16 d 30;
      dc_link_i_avg_da = get_u16 d 32;
      state = get_u8 d 34;
      mode_id_active = get_u8 d 35;
      flags = get_u16 d 36;
    })

unfoldable pub decode_ack_mode_bounds : CanFrame → Option AckModeBounds
decode_ack_mode_bounds f =
    let d = f.data_bytes in
    if not (f.id == id_ack_mode_bounds) || ltb f.len 13
    then none
    else some (record {
      seq = get_u16 d 0;
      freq_max_khz = get_u16 d 2;
      on_time_max_ns = get_u16 d 4;
      off_time_min_ns = get_u16 d 6;
      peak_i_setpoint_da = get_u16 d 8;
      peak_i_limit_hw_da = get_u16 d 10;
      status = get_u8 d 12;
    })

unfoldable pub decode_wire_break : CanFrame → Option WireBreakImminent
decode_wire_break f =
    let d = f.data_bytes in
    if not (f.id == id_wire_break) || ltb f.len 14
    then none
    else some (record {
      severity = get_u8 d 0;
      cause_flags = get_u8 d 1;
      recent_short_count = get_u16 d 2;
      recent_arc_count = get_u16 d 4;
      ignition_delay_var_ns2 = get_u32 d 6;
      timestamp_ms_since_start = get_u32 d 10;
    })

-- memset of the six detail bytes, then memcpy of the n that the frame carries
abbrev pub copy_detail : List ℕ → ℕ → List ℕ
copy_detail d n = take n (drop 2 d) ++ replicate (6 - n) 0

-- n, for a length of 2 or more
abbrev pub detail_count : ℕ → ℕ
detail_count len = if ltb 8 len then 6 else len - 2

unfoldable pub decode_fault : CanFrame → Option Fault
decode_fault f =
    let d = f.data_bytes in
    if not (f.id == id_fault) || ltb f.len 2
    then none
    else some (record {
      fault_code = get_or d 0 0;
      severity = get_or d 1 0;
      detail = copy_detail d (detail_count f.len);
    })

unfoldable pub decode_arc_burst : CanFrame → Option ArcBurst
decode_arc_burst f =
    let d = f.data_bytes in
    if not (f.id == id_arc_burst) || ltb f.len 2
    then none
    else some (record { consecutive_arcs = get_u16 d 0 })

-- The text with its terminating zero, as many bytes as were written to `out`.
unfoldable pub decode_info : CanFrame → ℕ → Option (List ℕ)
decode_info f out_cap =
    let n = if ltb f.len (out_cap - 1) then f.len else out_cap - 1 in
    if not (f.id == id_info) || out_cap == 0 then none else some (take n f.data_bytes ++ (0 ∷ []))

unfoldable pub decode_psu_status : CanFrame → Option PsuStatus
decode_psu_status f =
    let d = f.data_bytes in
    if not (f.id == id_psu_status) || ltb f.len 13
    then none
    else some (record {
      state = get_u8 d 0;
      fpga_version = get_u16 d 1;
      mcu_version = get_u16 d 3;
      protocol_version = get_u16 d 5;
      uptime_s = get_u32 d 7;
      fault_count = get_u16 d 11;
    })
