-- ===== src/Control/State.antt =====
-- EDM/Control/EdmController.h: the state of the controller. `F` is the type of `float`, `L` that of
-- the power supply's link and `D` that of the dielectric link; the controller holds references to
-- both links, and here their current values.
use fluid_edm.Base.{
  ℕ, ◌+◌, ◌-◌, ◌%◌, ◌^◌, Bool, true, false, Option, none, some, ◌==◌, ◌&&◌, ◌||◌, not,
  if◌then◌else◌,
}
use fluid_edm.Base.Float.{Float, one}
use fluid_edm.Psu.Messages.{SetModeBounds, no_bounds}
use fluid_edm.Psu.Link.{IPsuLink}
use fluid_edm.Servo.GapServo.{ServoConfig, GapServoState, servo_reset}
use fluid_edm.Servo.ModeTable.{
  ModeTable, EdmMode, idle as idle_mode, mode_for_sword, build, is_idle,
}
use fluid_edm.Control.Report.{
  EdmState, idle, armed, cutting, hold_state, break_relief_state, stall_fault, fault, FaultReason,
  no_fault, EdmReport, no_report,
}

pub record ControllerTimers : Type 0 where
  pub tele_hold : ℕ
  pub tele_fault : ℕ
  pub ack : ℕ
  pub stall : ℕ
  pub break_relief : ℕ
  pub clear : ℕ
  pub touchoff_budget : ℕ

-- the in-class initialisers, in milliseconds
abbrev pub default_timers : ControllerTimers
default_timers = record {
  tele_hold = 20;
  tele_fault = 200;
  ack = 200;
  stall = 2000;
  break_relief = 50;
  clear = 500;
  touchoff_budget = 6000;
}

pub record DielInterlock : Type 0 where
  pub required : Bool
  pub flow_min_clpm : ℕ
  pub level_min_pct : ℕ
  pub conductivity_warn_us : ℕ

abbrev pub default_interlock : DielInterlock
default_interlock = record {
  required = false;
  flow_min_clpm = 100;
  level_min_pct = 15;
  conductivity_warn_us = 20;
}

pub record EdmController (F L D : Type 0) : Type 0 where
  pub link : L
  pub servo : ServoConfig F
  pub modes : ModeTable
  pub timers : ControllerTimers
  pub servo_state : GapServoState F
  pub state : EdmState
  pub reason : FaultReason
  pub mode : EdmMode
  pub s_word : ℕ
  pub now : ℕ
  pub last_window_id : ℕ
  pub have_window : Bool
  pub last_window_change_ms : ℕ
  pub arm_deadline : ℕ
  pub arm_fresh : Bool
  pub touchoff_start : ℕ
  pub touchoff_contig : ℕ
  pub stall_since : ℕ
  pub break_relief_until : ℕ
  pub lostgap_contig : ℕ
  pub wire_break_sev : ℕ
  pub sev_clear_after : ℕ
  pub feed_cap_mult : F
  pub seq : ℕ
  pub last_sent : SetModeBounds
  pub have_sent : Bool
  pub report : EdmReport
  pub diel : Option D
  pub diel_cfg : DielInterlock

-- uint32_t milliseconds: sums and differences wrap
abbrev pub add32 : ℕ → ℕ → ℕ
add32 a b = (a + b) % 2 ^ 32

abbrev pub sub32 : ℕ → ℕ → ℕ
sub32 a b = (a + 2 ^ 32 - b % 2 ^ 32) % 2 ^ 32

-- `memcmp(&a, &b, sizeof(SetModeBounds)) == 0` with both sequence numbers set to 0. The structures
-- are copies of default-initialised ones, whose padding is taken to be equal.
unfoldable pub same_bounds : SetModeBounds → SetModeBounds → Bool
same_bounds a b =
    a.mode_id == b.mode_id
    && a.freq_max_khz == b.freq_max_khz
    && a.on_time_max_ns == b.on_time_max_ns
    && a.off_time_min_ns == b.off_time_min_ns
    && a.peak_i_setpoint_da == b.peak_i_setpoint_da
    && a.peak_i_limit_hw_da == b.peak_i_limit_hw_da
    && a.polarity == b.polarity
    && a.flags == b.flags
    && a.gap_v_arc_mv == b.gap_v_arc_mv
    && a.gap_v_short_mv == b.gap_v_short_mv
    && a.ignition_timeout_us == b.ignition_timeout_us

abbrev pub is_fault_state : EdmState → Bool
is_fault_state fault = true
is_fault_state stall_fault = true
is_fault_state _ = false

-- `_state == Cutting || _state == Hold || _state == BreakRelief`, the span of the dielectric check
abbrev pub is_eroding : EdmState → Bool
is_eroding cutting = true
is_eroding hold_state = true
is_eroding break_relief_state = true
is_eroding _ = false

module _ {F L D : Type 0} ⦃f : Float F⦄ ⦃k : IPsuLink L⦄ where
  unfoldable pub new_controller :
      L → ServoConfig F → ModeTable → ControllerTimers → EdmController F L D
  new_controller l cfg modes timers = record {
    link = l;
    servo = cfg;
    modes = modes;
    timers = timers;
    servo_state = servo_reset;
    state = idle;
    reason = no_fault;
    mode = idle_mode;
    s_word = 0;
    now = 0;
    last_window_id = 0;
    have_window = false;
    last_window_change_ms = 0;
    arm_deadline = 0;
    arm_fresh = false;
    touchoff_start = 0;
    touchoff_contig = 0;
    stall_since = 0;
    break_relief_until = 0;
    lostgap_contig = 0;
    wire_break_sev = 0;
    sev_clear_after = 0;
    feed_cap_mult = one;
    seq = 0;
    last_sent = no_bounds;
    have_sent = false;
    report = no_report;
    diel = none;
    diel_cfg = default_interlock;
  }

  unfoldable pub attach_dielectric : EdmController F L D → D → DielInterlock → EdmController F L D
  attach_dielectric c d cfg = record c { diel = some d; diel_cfg = cfg }

  unfoldable pub enter_fault : EdmController F L D → FaultReason → EdmController F L D
  enter_fault c r = record c { link = k.stop_cut c.link; state = fault; reason = r }

  unfoldable pub maybe_send_mode_bounds : EdmController F L D → EdmController F L D
  maybe_send_mode_bounds c =
      let want = build F c.modes c.mode c.s_word 0 in
      let seq' = (c.seq + 1) % 2 ^ 16 in
      let stamped = record want { seq = seq' } in
      if not c.have_sent || not (same_bounds want c.last_sent)
      then record c {
        link = (k.set_mode_bounds c.link stamped).0;
        seq = seq';
        last_sent = stamped;
        have_sent = true;
      }
      else c

  unfoldable pub request_stop : EdmController F L D → EdmController F L D
  request_stop c = record c {
    link = k.stop_cut c.link;
    state = idle;
    mode = idle_mode;
    servo_state = servo_reset;
  }

  unfoldable pub request_cut : EdmController F L D → ℕ → EdmController F L D
  request_cut c s =
      let m = mode_for_sword c.modes s in
      let chosen = record c { s_word = s; mode = m } in
      if is_fault_state c.state
      then c
      else if is_idle m
      then request_stop chosen
      else maybe_send_mode_bounds (record chosen {
        state = armed;
        arm_deadline = add32 c.now c.timers.ack;
        arm_fresh = true;
      })

  unfoldable pub notify_cut_complete : EdmController F L D → EdmController F L D
  notify_cut_complete c = elim c.state [ fault ↦ c | _ ↦ request_stop c ]

  unfoldable pub clear_fault : EdmController F L D → EdmController F L D
  clear_fault c =
      if is_fault_state c.state
      then record c { link = k.clear_fault c.link; state = idle; reason = no_fault }
      else c
