-- ===== src/Diel/Codec/Layout.antt =====
-- The dielectric codec against the layout that the two ends share.
use fluid_edm.Base.{◌≡◌, some}
use fluid_edm.Wire.Frame.{CanFrame, new_frame}
use fluid_edm.Wire.Endian.{
  put_u8, put_u16, put_u32, put_i16, get_u8, get_u16, get_u32, get_i16, byte_fits, bytes16, bytes32,
  bytes_i16,
}
use fluid_edm.Diel.Messages.{SetDiel, DielStats, IsSetDiel, IsDielStats, id_diel_stats}
use fluid_edm.Diel.Codec.{encode_set_diel, decode_diel_stats}

-- The layout of SET_DIEL as the module reads it.
abbrev pub read_set_diel : CanFrame → SetDiel
unfolding get_u8 get_u16 get_i16
read_set_diel f =
    let d = f.data_bytes in
    record {
      seq = get_u16 d 0;
      pump_on = get_u8 d 2;
      flush_level = get_u8 d 3;
      temp_setpoint_dc = get_i16 d 4;
      deioniser_enable = get_u8 d 6;
      flags = get_u16 d 7;
    }

-- Whatever command is sent, the module reads back every field, the signed temperature included, when
-- the fields lie in the ranges of their integer types.
pub read-encode_set_diel : (v : SetDiel) → IsSetDiel v → read_set_diel (encode_set_diel v) ≡ v
unfolding encode_set_diel read_set_diel new_frame put_u8 put_u16 put_i16 get_u8 get_u16 get_i16
read-encode_set_diel v h = λ i. record {
  seq = bytes16 v.seq h.seq_fits i;
  pump_on = byte_fits v.pump_on h.pump_on_fits i;
  flush_level = byte_fits v.flush_level h.flush_level_fits i;
  temp_setpoint_dc = bytes_i16 v.temp_setpoint_dc h.temp_setpoint_dc_fits i;
  deioniser_enable = byte_fits v.deioniser_enable h.deioniser_enable_fits i;
  flags = bytes16 v.flags h.flags_fits i;
}

-- DIEL_STATS as the module writes it.
pub diel_stats_frame : DielStats → CanFrame
diel_stats_frame v =
    let f = new_frame id_diel_stats 20 in
    let d0 = put_u32 f.data_bytes 0 v.window_id in
    let d1 = put_u8 d0 4 v.pump_on in
    let d2 = put_u8 d1 5 v.flush_level in
    let d3 = put_u16 d2 6 v.flush_mbar in
    let d4 = put_u16 d3 8 v.flow_clpm in
    let d5 = put_i16 d4 10 v.temp_dc in
    let d6 = put_i16 d5 12 v.temp_set_dc in
    let d7 = put_u16 d6 14 v.conductivity_us in
    let d8 = put_u8 d7 16 v.level_pct in
    let d9 = put_u8 d8 17 v.filter_pct in
    let d10 = put_u16 d9 18 v.flags in record f { data_bytes = d10 }

-- A DIEL_STATS frame that the module writes from values in range is decoded to just these values.
pub decode_diel_stats-diel_stats_frame :
    (v : DielStats) → IsDielStats v → decode_diel_stats (diel_stats_frame v) ≡ some v
unfolding decode_diel_stats diel_stats_frame new_frame put_u8 put_u16 put_u32 put_i16 get_u8 get_u16
    get_u32 get_i16
decode_diel_stats-diel_stats_frame v h = λ i. some (record {
  window_id = bytes32 v.window_id h.window_id_fits i;
  pump_on = byte_fits v.pump_on h.pump_on_fits i;
  flush_level = byte_fits v.flush_level h.flush_level_fits i;
  flush_mbar = bytes16 v.flush_mbar h.flush_mbar_fits i;
  flow_clpm = bytes16 v.flow_clpm h.flow_clpm_fits i;
  temp_dc = bytes_i16 v.temp_dc h.temp_dc_fits i;
  temp_set_dc = bytes_i16 v.temp_set_dc h.temp_set_dc_fits i;
  conductivity_us = bytes16 v.conductivity_us h.conductivity_us_fits i;
  level_pct = byte_fits v.level_pct h.level_pct_fits i;
  filter_pct = byte_fits v.filter_pct h.filter_pct_fits i;
  flags = bytes16 v.flags h.flags_fits i;
})
