-- ===== src/Diel/Codec.antt =====
-- EDM/Diel/DielProtocol.cpp: the encoder of commands and the decoders of the module's frames. A
-- decoder returns `none` where the source returns false.
pub mod Layout
use fluid_edm.Base.{
  ℕ, ◌-◌, Bool, not, ◌||◌, Option, none, some, List, ◌++◌, ltb, ◌==◌, if◌then◌else◌, get_or, take,
  drop, replicate,
}
use fluid_edm.Wire.Frame.{CanFrame, new_frame}
use fluid_edm.Wire.Endian.{put_u8, put_u16, put_i16, get_u16, get_u32, get_i16}
use fluid_edm.Diel.Messages.{
  SetDiel, AckDiel, DielStats, DielFault, DielStatus, id_set_diel, id_ack_diel, id_diel_stats,
  id_diel_fault, id_diel_status,
}

unfoldable pub encode_set_diel : SetDiel → CanFrame
encode_set_diel v =
    let f = new_frame id_set_diel 9 in
    let d0 = put_u16 f.data_bytes 0 v.seq in
    let d1 = put_u8 d0 2 v.pump_on in
    let d2 = put_u8 d1 3 v.flush_level in
    let d3 = put_i16 d2 4 v.temp_setpoint_dc in
    let d4 = put_u8 d3 6 v.deioniser_enable in
    let d5 = put_u16 d4 7 v.flags in record f { data_bytes = d5 }

unfoldable pub decode_ack_diel : CanFrame → Option AckDiel
decode_ack_diel f =
    let d = f.data_bytes in
    if not (f.id == id_ack_diel) || ltb f.len 7
    then none
    else some (record {
      seq = get_u16 d 0;
      pump_on = get_or d 2 0;
      flush_level = get_or d 3 0;
      temp_setpoint_dc = get_i16 d 4;
      status = get_or d 6 0;
    })

unfoldable pub decode_diel_stats : CanFrame → Option DielStats
decode_diel_stats f =
    let d = f.data_bytes in
    if not (f.id == id_diel_stats) || ltb f.len 20
    then none
    else some (record {
      window_id = get_u32 d 0;
      pump_on = get_or d 4 0;
      flush_level = get_or d 5 0;
      flush_mbar = get_u16 d 6;
      flow_clpm = get_u16 d 8;
      temp_dc = get_i16 d 10;
      temp_set_dc = get_i16 d 12;
      conductivity_us = get_u16 d 14;
      level_pct = get_or d 16 0;
      filter_pct = get_or d 17 0;
      flags = get_u16 d 18;
    })

unfoldable pub decode_diel_fault : CanFrame → Option DielFault
decode_diel_fault f =
    let d = f.data_bytes in
    let n = if ltb 8 f.len then 6 else f.len - 2 in
    if not (f.id == id_diel_fault) || ltb f.len 2
    then none
    else some (record {
      fault_code = get_or d 0 0;
      severity = get_or d 1 0;
      detail = take n (drop 2 d) ++ replicate (6 - n) 0;
    })

unfoldable pub decode_diel_status : CanFrame → Option DielStatus
decode_diel_status f =
    let d = f.data_bytes in
    if not (f.id == id_diel_status) || ltb f.len 9
    then none
    else some (record {
      state = get_or d 0 0;
      fw_version = get_u16 d 1;
      protocol_version = get_u16 d 3;
      uptime_s = get_u32 d 5;
    })
