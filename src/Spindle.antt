-- ===== src/Spindle.antt =====
-- EDM/EdmSpindle.h and EdmSpindle.cpp: what M3, M5 and the S-word do to the controller, and how `init`
-- builds the links and the interlock from the configuration. The tasks that `init` starts, the YAML
-- handlers and the log lines are left out; both links are the simulators, as in the source today.
pub mod Stop
use fluid_edm.Base.{ℕ, ◌%◌, ◌^◌, Bool, true, false, Option, none, some, ◌==◌, ◌||◌, if◌then◌else◌}
use fluid_edm.Base.Int.{ℤ, pos, signed16, pattern16}
use fluid_edm.Base.Float.{Float}
use fluid_edm.Psu.Link.{IPsuLink}
use fluid_edm.Psu.SimLink.{SimPsuLink, new_sim, begin_sim, sim_psu_link}
use fluid_edm.Diel.Messages.{SetDiel, IDielLink, default_set_diel}
use fluid_edm.Diel.SimLink.{SimDielLink, new_sim_diel, begin_sim_diel, set_sim_diel, sim_diel_link}
use fluid_edm.Servo.GapServo.{ServoConfig}
use fluid_edm.Servo.ModeTable.{ModeTable}
use fluid_edm.Control.State.{
  EdmController, DielInterlock, default_timers, new_controller, attach_dielectric, request_stop,
  request_cut,
}
use fluid_edm.Feed.WireFeed.{WireFeed, WireFeedConfig, new_wire_feed, begin_wire_feed}
use fluid_edm.Realtime.{SpindleState, is_disable}

-- EdmDielConfig
pub record EdmDielConfig : Type 0 where
  pub use_sim : Bool
  pub required : Bool
  pub flow_min_clpm : ℕ
  pub level_min_pct : ℕ
  pub conductivity_warn_us : ℕ
  pub temp_setpoint_dc : ℤ
  pub default_flush_level : ℕ

-- the in-class initialisers
abbrev pub default_diel_config : EdmDielConfig
default_diel_config = record {
  use_sim = true;
  required = false;
  flow_min_clpm = 100;
  level_min_pct = 15;
  conductivity_warn_us = 20;
  temp_setpoint_dc = pos 220;
  default_flush_level = 2;
}

pub record EdmSpindle (F L D : Type 0) : Type 0 where
  pub ctl : Option (EdmController F L D)
  pub feed : Option (WireFeed F)
  pub diel_temp_setpoint_dc : ℤ
  pub diel_default_flush_level : ℕ
  pub current_state : SpindleState
  pub current_speed : ℕ

-- the configuration that is in force
abbrev pub in_force : Option EdmDielConfig → EdmDielConfig
in_force none = default_diel_config
in_force (some cfg) = cfg

-- the casts to uint16_t and uint8_t
unfoldable pub interlock_of : EdmDielConfig → DielInterlock
interlock_of cfg = record {
  required = cfg.required;
  flow_min_clpm = cfg.flow_min_clpm % 2 ^ 16;
  level_min_pct = cfg.level_min_pct % 2 ^ 8;
  conductivity_warn_us = cfg.conductivity_warn_us % 2 ^ 16;
}

module _ {F L D : Type 0} where
  unfoldable pub diel_defaults : EdmSpindle F L D → SetDiel
  diel_defaults s = record default_set_diel {
    flush_level = s.diel_default_flush_level % 2 ^ 8;
    temp_setpoint_dc = signed16 (pattern16 s.diel_temp_setpoint_dc);
    deioniser_enable = 1;
    pump_on = 1;
  }

-- `init`, at the time `now_ms` of the wire feed's begin
unfoldable pub init_spindle :
    {F : Type 0}
    → ⦃f : Float F⦄ → EdmSpindle F (SimPsuLink F) (SimDielLink F)
    → ServoConfig F
    → ModeTable
    → Option EdmDielConfig
    → Option (WireFeedConfig F)
    → ℕ
    → EdmSpindle F (SimPsuLink F) (SimDielLink F)
init_spindle s servo modes diel_cfg feed_cfg now_ms =
    let cfg = in_force diel_cfg in
    let c = new_controller (begin_sim new_sim) servo modes default_timers in
    let t = record s {
      diel_temp_setpoint_dc = cfg.temp_setpoint_dc;
      diel_default_flush_level = cfg.default_flush_level;
    } in
    let link = (set_sim_diel (begin_sim_diel new_sim_diel) (diel_defaults t)).0 in
    record t {
      ctl = some (attach_dielectric c link (interlock_of cfg));
      feed = elim feed_cfg [
        | none ↦ s.feed
        | some fc ↦ some (begin_wire_feed new_wire_feed fc now_ms)
      ];
    }

module _ {F L D : Type 0} ⦃f : Float F⦄ ⦃k : IPsuLink L⦄ where
  -- `setState`, without a controller nothing at all
  unfoldable pub set_state : EdmSpindle F L D → SpindleState → ℕ → EdmSpindle F L D
  set_state s state speed = elim s.ctl [
    | none ↦ s
    | some c ↦ record s {
      ctl = some (
          if is_disable state || speed == 0
          then request_stop c
          else request_cut c (speed % 2 ^ 16));
      current_state = state;
      current_speed = speed;
    }
  ]
