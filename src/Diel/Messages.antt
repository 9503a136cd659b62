-- ===== src/Diel/Messages.antt =====
-- EDM/Diel/DielProtocol.h and IDielLink.h: the messages of the dielectric (coolant) module and the
-- interface of a link to it. A record `IsX` says what the integer types of the fields of `X` say.
use fluid_edm.Base.{ℕ, ◌^◌, ◌<◌, Bool, Option, List}
use fluid_edm.Base.Int.{ℤ, pos, IsInt16}

-- enum Id
abbrev pub id_set_diel : ℕ
id_set_diel = 0x710

abbrev pub id_ack_diel : ℕ
id_ack_diel = 0x711

abbrev pub id_diel_stats : ℕ
id_diel_stats = 0x720

abbrev pub id_diel_fault : ℕ
id_diel_fault = 0x730

abbrev pub id_diel_status : ℕ
id_diel_status = 0x740

abbrev pub diel_protocol_version : ℕ
diel_protocol_version = 1

pub record SetDiel : Type 0 where
  pub seq : ℕ
  pub pump_on : ℕ
  pub flush_level : ℕ
  pub temp_setpoint_dc : ℤ
  pub deioniser_enable : ℕ
  pub flags : ℕ

pub record AckDiel : Type 0 where
  pub seq : ℕ
  pub pump_on : ℕ
  pub flush_level : ℕ
  pub temp_setpoint_dc : ℤ
  pub status : ℕ

pub record DielStats : Type 0 where
  pub window_id : ℕ
  pub pump_on : ℕ
  pub flush_level : ℕ
  pub flush_mbar : ℕ
  pub flow_clpm : ℕ
  pub temp_dc : ℤ
  pub temp_set_dc : ℤ
  pub conductivity_us : ℕ
  pub level_pct : ℕ
  pub filter_pct : ℕ
  pub flags : ℕ

pub record DielFault : Type 0 where
  pub fault_code : ℕ
  pub severity : ℕ
  pub detail : List ℕ

pub record DielStatus : Type 0 where
  pub state : ℕ
  pub fw_version : ℕ
  pub protocol_version : ℕ
  pub uptime_s : ℕ

-- the in-class initialisers
abbrev pub default_set_diel : SetDiel
default_set_diel = record {
  seq = 0;
  pump_on = 0;
  flush_level = 0;
  temp_setpoint_dc = pos 220;
  deioniser_enable = 1;
  flags = 0;
}

abbrev pub no_diel_stats : DielStats
no_diel_stats = record {
  window_id = 0;
  pump_on = 0;
  flush_level = 0;
  flush_mbar = 0;
  flow_clpm = 0;
  temp_dc = pos 0;
  temp_set_dc = pos 0;
  conductivity_us = 0;
  level_pct = 0;
  filter_pct = 0;
  flags = 0;
}

pub record IsSetDiel (v : SetDiel) : Type 0 where
  pub seq_fits : v.seq < 2 ^ 16
  pub pump_on_fits : v.pump_on < 2 ^ 8
  pub flush_level_fits : v.flush_level < 2 ^ 8
  pub temp_setpoint_dc_fits : IsInt16 v.temp_setpoint_dc
  pub deioniser_enable_fits : v.deioniser_enable < 2 ^ 8
  pub flags_fits : v.flags < 2 ^ 16

pub record IsDielStats (v : DielStats) : Type 0 where
  pub window_id_fits : v.window_id < 2 ^ 32
  pub pump_on_fits : v.pump_on < 2 ^ 8
  pub flush_level_fits : v.flush_level < 2 ^ 8
  pub flush_mbar_fits : v.flush_mbar < 2 ^ 16
  pub flow_clpm_fits : v.flow_clpm < 2 ^ 16
  pub temp_dc_fits : IsInt16 v.temp_dc
  pub temp_set_dc_fits : IsInt16 v.temp_set_dc
  pub conductivity_us_fits : v.conductivity_us < 2 ^ 16
  pub level_pct_fits : v.level_pct < 2 ^ 8
  pub filter_pct_fits : v.filter_pct < 2 ^ 8
  pub flags_fits : v.flags < 2 ^ 16

pub record IDielLink (D : Type 0) : Type 0 where
  pub set_diel : D → SetDiel → D × ℕ
  pub latest_stats : D → Option DielStats
  -- `DielEvent` has the one kind `FaultEvt`
  pub pop_event : D → Option (DielFault × D)
  pub is_connected : D → Bool
  pub protocol_compatible : D → Bool
  pub present : D → Bool
