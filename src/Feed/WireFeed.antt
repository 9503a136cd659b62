-- ===== src/Feed/WireFeed.antt =====
-- EDM/Feed/WireFeed.cpp and WireFeed.h: the configuration and one tick of the wire feed, and the two
-- commands of EDM/EdmCommands.cpp for it. The report of the process controller and the lines of the
-- load cell at the time of a tick are arguments of the tick. Null pointers are none.
pub mod Stop
use fluid_edm.Base.{
  ℕ, ◌+◌, ◌-◌, ◌*◌, ◌%◌, ◌^◌, Bool, true, false, not, ◌&&◌, ◌||◌, if◌then◌else◌, ltb, leb, ◌==◌,
  List, [], ◌∷◌, length, Option, none, some,
}
use fluid_edm.Base.Int.{ℤ, pos, negsuc}
use fluid_edm.Base.Float.{Float, nought, one, of_ℕ}
use fluid_edm.Control.Report.{
  EdmReport, EdmState, state_of, idle, armed, touch_off, cutting, hold_state, break_relief_state,
  stall_fault, fault,
}
use fluid_edm.Feed.TensionController.{
  TensionConfig, TensionInput, TensionState, TensionOutput, default_tension, tension_reset,
  step_tension,
}
use fluid_edm.Feed.Hx711.{Hx711, read_raw, to_newtons, data_ready}
use fluid_edm.Feed.StepGen.{StepGen, new_step_gen, begin_step_gen, set_rate, enable}

-- the pins are those of the step generators
pub record MotorCfg (F : Type 0) : Type 0 where
  pub steps_per_mm : F
  pub default_feed_mm_min : F
  pub min_sps : F
  pub max_sps : F
  pub hold_sps : F

pub record TensionCtrlCfg (F : Type 0) : Type 0 where
  pub ff_ratio : F
  pub setpoint_n : F
  pub kp : F
  pub ki : F
  pub alpha : F
  pub deadband_n : F
  pub pi_clamp_sps : F
  pub integ_bleed : F

pub record CollapseCfg (F : Type 0) : Type 0 where
  pub threshold_n : F
  pub frac : F
  pub loaded_frac : F
  pub loaded_recent_ms : ℕ
  pub debounce_ms : ℕ

pub record WireFeedConfig (F : Type 0) : Type 0 where
  pub feed_motor : Option (MotorCfg F)
  pub tension_motor : Option (MotorCfg F)
  pub tension_control : Option (TensionCtrlCfg F)
  pub collapse : Option (CollapseCfg F)
  pub load_cell : Option (Hx711 F)
  pub sev_tension_scale : List F

pub record WireFeed (F : Type 0) : Type 0 where
  pub controller : TensionConfig F
  pub state : TensionState F
  pub hx711 : Option (Hx711 F)
  pub feed_gen : StepGen
  pub tension_gen : StepGen
  pub last_ms : ℕ
  pub last_raw : ℤ
  pub last_n : F

-- The lines of the load cell at a tick: DOUT before it, and DOUT after each clock pulse.
pub record CellLines : Type 0 where
  pub dout : Bool
  pub dout_at : ℕ → Bool

abbrev pub is_cutting : EdmState → Bool
is_cutting idle = false
is_cutting armed = false
is_cutting touch_off = true
is_cutting cutting = true
is_cutting hold_state = true
is_cutting break_relief_state = true
is_cutting stall_fault = false
is_cutting fault = false

-- `cap`, `sev` and `st`
abbrev pub live_state : Option EdmReport → ℕ × ℕ × EdmState
live_state none = (100, 0, idle)
live_state (some r) = (r.feed_cap_pct, r.wire_break_sev, state_of r.controller_state)

-- the DISABLE line of the feed
abbrev pub drive_feed : StepGen → ℕ → Bool → Bool → StepGen
drive_feed g sev collapse cut =
    if leb 3 sev || collapse then enable g false else if cut then enable g true else g

module _ {F : Type 0} where
  abbrev pub with_feed_motor : TensionConfig F → Option (MotorCfg F) → TensionConfig F
  with_feed_motor tc none = tc
  with_feed_motor tc (some m) = record tc {
    feed_steps_per_mm = m.steps_per_mm;
    default_feed_mm_min = m.default_feed_mm_min;
    feed_max_sps = m.max_sps;
  }

  abbrev pub with_tension_motor : TensionConfig F → Option (MotorCfg F) → TensionConfig F
  with_tension_motor tc none = tc
  with_tension_motor tc (some m) = record tc {
    tension_min_sps = m.min_sps;
    tension_max_sps = m.max_sps;
    tension_hold_sps = m.hold_sps;
  }

  abbrev pub with_tension_control : TensionConfig F → Option (TensionCtrlCfg F) → TensionConfig F
  with_tension_control tc none = tc
  with_tension_control tc (some t) = record tc {
    ff_ratio = t.ff_ratio;
    setpoint_n = t.setpoint_n;
    k_p = t.kp;
    k_i = t.ki;
    tens_alpha = t.alpha;
    tens_deadband_n = t.deadband_n;
    pi_clamp_sps = t.pi_clamp_sps;
    integ_bleed = t.integ_bleed;
  }

  abbrev pub with_collapse : TensionConfig F → Option (CollapseCfg F) → TensionConfig F
  with_collapse tc none = tc
  with_collapse tc (some c) = record tc {
    collapse_n = c.threshold_n;
    collapse_frac = c.frac;
    loaded_frac = c.loaded_frac;
    loaded_recent_ms = c.loaded_recent_ms;
    collapse_ms = c.debounce_ms;
  }

  abbrev pub with_scale : TensionConfig F → List F → TensionConfig F
  with_scale tc scale = if length scale == 4 then record tc { sev_tension_scale = scale } else tc

  abbrev pub begin_gen : StepGen → Option (MotorCfg F) → ℤ → StepGen
  begin_gen g none timer = g
  begin_gen g (some m) timer = begin_step_gen g timer

module _ {F : Type 0} ⦃f : Float F⦄ where
  open f use {dec, minus, div}

  unfoldable pub build_tension_config : WireFeedConfig F → TensionConfig F
  build_tension_config cfg =
      with_scale
        (with_collapse
          (with_tension_control
            (with_tension_motor (with_feed_motor default_tension cfg.feed_motor) cfg.tension_motor)
            cfg.tension_control)
          cfg.collapse)
        cfg.sev_tension_scale

  -- the in-class initialisers
  abbrev pub new_wire_feed : WireFeed F
  new_wire_feed = record {
    controller = default_tension;
    state = tension_reset;
    hx711 = none;
    feed_gen = new_step_gen;
    tension_gen = new_step_gen;
    last_ms = 0;
    last_raw = pos 0;
    last_n = nought;
  }

  -- `begin`, at the time `now_ms` of its end
  unfoldable pub begin_wire_feed : WireFeed F → WireFeedConfig F → ℕ → WireFeed F
  begin_wire_feed w cfg now_ms = record w {
    controller = build_tension_config cfg;
    state = tension_reset;
    hx711 = cfg.load_cell;
    feed_gen = begin_gen w.feed_gen cfg.feed_motor (pos 2);
    tension_gen = begin_gen w.tension_gen cfg.tension_motor (pos 3);
    last_ms = now_ms;
  }

  -- whether a conversion is fresh
  abbrev pub is_fresh : Option (Hx711 F) → CellLines → Bool
  is_fresh none lines = false
  is_fresh (some h) lines = data_ready lines.dout

  abbrev pub sample_cell : WireFeed F → Option (Hx711 F) → CellLines → WireFeed F
  sample_cell w none lines = w
  sample_cell w (some h) lines =
      let (raw, writes) = read_raw h lines.dout_at in
      if data_ready lines.dout
      then record w { last_raw = raw; last_n = to_newtons (h.cal) raw }
      else w

  -- `in`
  unfoldable pub tension_input : WireFeed F → Bool → ℕ × ℕ × EdmState → ℕ → TensionInput F
  tension_input w fresh (cap, sev, st) now_ms = record {
    measured_n = w.last_n;
    meas_valid = fresh;
    feed_cap_mult = div (of_ℕ cap) (dec 100 0);
    severity = sev;
    cutting = is_cutting st;
    commanded_feed_mm_min = minus one;
    dt_ms = (now_ms + 2 ^ 32 - w.last_ms) % 2 ^ 32;
  }

  unfoldable pub tick_feed : WireFeed F → Option EdmReport → CellLines → ℕ → WireFeed F
  tick_feed w ctl lines now_ms =
      let sampled = sample_cell w w.hx711 lines in
      let (cap, sev, st) = live_state ctl in
      let inp = tension_input sampled (is_fresh w.hx711 lines) (cap, sev, st) now_ms in
      let o = step_tension w.controller w.state inp in
      record sampled {
        last_ms = now_ms;
        state = o.next;
        feed_gen =
            drive_feed (set_rate w.feed_gen o.feed_steps_per_s) sev o.tension_collapse
              (is_cutting st);
        tension_gen = set_rate w.tension_gen o.tension_steps_per_s;
      }

  abbrev pub reset_collapse : WireFeed F → WireFeed F
  reset_collapse w = record w { state = tension_reset }
