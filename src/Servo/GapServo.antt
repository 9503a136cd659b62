-- ===== src/Servo/GapServo.antt =====
-- EDM/Servo/GapServo.h and GapServo.cpp: one step of the gap servo, a pure function of its state and
-- input. The stages of `step` are functions of their own.
pub mod Safety
use fluid_edm.Base.{
  ℕ, ◌+◌, ◌-◌, ◌%◌, ◌^◌, Bool, true, false, not, ◌&&◌, ◌||◌, if◌then◌else◌, ltb, leb, ◌==◌,
}
use fluid_edm.Base.Int.{ℤ, pos, signed32, pattern32}
use fluid_edm.Base.Float.{Float, nought, one, clampf}

pub data ServoState : Type 0 where
  hold track retract arc_hold break_relief : ServoState

pub record ServoConfig (F : Type 0) : Type 0 where
  pub short_ref : F
  pub open_ref : F
  pub w_short : F
  pub w_open : F
  pub w_delay : F
  pub alpha : F
  pub k_p : F
  pub k_i : F
  pub deadband : F
  pub v_feed_max : F
  pub v_retract : F
  pub v_touch : F
  pub short_retract : F
  pub arc_brake : F
  pub arc_hold_ratio : F
  pub integ_bleed : F
  pub n_min : ℕ
  pub consec_short_limit : ℕ
  pub pi_decimation : ℕ
  pub dt_pi : F

pub record GapServoInput (F : Type 0) : Type 0 where
  pub valid : Bool
  pub open_ratio : F
  pub short_ratio : F
  pub arc_ratio : F
  pub normal_ratio : F
  pub ign_delay_norm : F
  pub total_pulses : ℕ
  pub feed_cap_mult : F
  pub force_break_relief : Bool
  pub in_touch_off : Bool

pub record GapServoState (F : Type 0) : Type 0 where
  pub state : ServoState
  pub e_f : F
  pub integ : F
  pub consec_short : ℕ
  pub decim_count : ℕ
  pub last_v : F

pub record GapServoOutput (F : Type 0) : Type 0 where
  pub next : GapServoState F
  pub v_s_um_s : ℤ
  pub v_cmd_mm_min : F
  pub state : ServoState
  pub g_telemetry : F
  pub g_target : F
  pub e_filtered : F
  pub integrator : F

-- the two branches of `step` that multiply the integrator by `integ_bleed`
abbrev pub bleeds : ServoState → Bool
bleeds break_relief = true
bleeds retract = true
bleeds _ = false

module _ {F : Type 0} ⦃f : Float F⦄ where
  open f use {dec, add, sub, mul, div, minus, fabs, lt, lround}

  -- the in-class initialisers
  abbrev pub default_servo : ServoConfig F
  default_servo = record {
    short_ref = dec 8 2;
    open_ref = dec 15 2;
    w_short = dec 1 0;
    w_open = dec 5 1;
    w_delay = dec 3 1;
    alpha = dec 2 1;
    k_p = dec 8 0;
    k_i = dec 0 0;
    deadband = dec 3 2;
    v_feed_max = dec 4 0;
    v_retract = dec 6 0;
    v_touch = dec 5 1;
    short_retract = dec 30 2;
    arc_brake = dec 20 2;
    arc_hold_ratio = dec 40 2;
    integ_bleed = dec 5 1;
    n_min = 20;
    consec_short_limit = 3;
    pi_decimation = 5;
    dt_pi = dec 5 3;
  }

  -- `GapServo::reset`
  abbrev pub servo_reset : GapServoState F
  servo_reset = record {
    state = hold;
    e_f = nought;
    integ = nought;
    consec_short = 0;
    decim_count = 0;
    last_v = nought;
  }

  module _ (c : ServoConfig F) where
    abbrev pub delay_error : GapServoInput F → F
    delay_error inp = if inp.valid then clampf inp.ign_delay_norm (minus one) one else nought

    -- the filtered error `ns.e_f`, from the error of a valid input
    unfoldable filtered_error : GapServoState F → GapServoInput F → F
    filtered_error s inp =
        let e_raw =
          add
            (sub (mul c.w_open (sub inp.open_ratio c.open_ref))
              (mul c.w_short (sub inp.short_ratio c.short_ref)))
            (mul c.w_delay (delay_error inp)) in
        if inp.valid then add (mul c.alpha e_raw) (mul (sub one c.alpha) s.e_f) else s.e_f

    -- `g` and `g_target`
    abbrev pub telemetry : GapServoInput F → F
    telemetry inp =
        if inp.valid
        then add (sub (mul c.w_open inp.open_ratio) (mul c.w_short inp.short_ratio))
            (mul c.w_delay (delay_error inp))
        else nought

    abbrev pub telemetry_target : F
    telemetry_target = sub (mul c.w_open c.open_ref) (mul c.w_short c.short_ref)

    -- the count of shorted windows in a row, which stops at 255
    pub count_shorts : GapServoState F → GapServoInput F → ℕ
    count_shorts s inp =
        if inp.valid
        then (if lt (mul c.short_ref (dec 2 0)) inp.short_ratio
            then (if ltb s.consec_short 255 then s.consec_short + 1 else s.consec_short)
            else 0)
        else s.consec_short

    -- the PI stage of a step whose decimation count has come round, at the filtered error `e`
    unfoldable integrate : GapServoState F → F → F
    integrate s e =
        let imax = div c.v_feed_max c.k_i in
        if lt nought c.k_i && not (lt (fabs e) c.deadband)
        then clampf (add s.integ (mul e c.dt_pi)) (minus imax) imax
        else s.integ

    unfoldable pi_velocity : F → F → F
    pi_velocity e integ =
        clampf (if lt (fabs e) c.deadband then nought else add (mul c.k_p e) (mul c.k_i integ))
          (minus c.v_retract) c.v_feed_max

    -- The state after the filter, the short count and the decimated PI stage. `decim_count` is a
    -- uint8_t; the velocity `v_pi` of the source is `last_v` here on each path.
    pub regulate : GapServoState F → GapServoInput F → GapServoState F
    regulate s inp =
        let e = filtered_error s inp in
        let count = (s.decim_count + 1) % 2 ^ 8 in
        let integ' = integrate s e in
        let s' = record s { e_f = e; consec_short = count_shorts s inp } in
        if inp.valid
        then (if leb c.pi_decimation count
            then record s' { decim_count = 0; integ = integ'; last_v = pi_velocity e integ' }
            else record s' { decim_count = count })
        else s'

    -- the state of the servo for this step
    unfoldable pub select : GapServoState F → GapServoInput F → ServoState
    select ns inp =
        if inp.in_touch_off
        then track
        else if not inp.valid
        then hold
        else if inp.force_break_relief
        then break_relief
        else if lt c.short_retract inp.short_ratio || leb c.consec_short_limit ns.consec_short
        then retract
        else if lt c.arc_hold_ratio inp.arc_ratio
        then arc_hold
        else if lt c.arc_brake inp.arc_ratio
        then track
        else if lt (fabs ns.e_f) c.deadband
        then hold
        else track

    -- the velocity of the same ladder of tests
    unfoldable pub choose_velocity : GapServoState F → GapServoInput F → F
    choose_velocity ns inp =
        let taper =
          mul c.v_feed_max (sub one (div (sub inp.arc_ratio c.arc_brake) (sub one c.arc_brake))) in
        if inp.in_touch_off
        then c.v_touch
        else if not inp.valid
        then nought
        else if inp.force_break_relief
        then minus c.v_retract
        else if lt c.short_retract inp.short_ratio || leb c.consec_short_limit ns.consec_short
        then minus c.v_retract
        else if lt c.arc_hold_ratio inp.arc_ratio
        then nought
        else if lt c.arc_brake inp.arc_ratio
        then (if lt ns.last_v taper then ns.last_v else taper)
        else ns.last_v

    unfoldable pub step : GapServoState F → GapServoInput F → GapServoOutput F
    step s inp =
        let ns = regulate s inp in
        let st = select ns inp in
        let v = choose_velocity ns inp in
        let integ' = if bleeds st then mul ns.integ c.integ_bleed else ns.integ in
        let capped = if lt nought v then mul v inp.feed_cap_mult else v in
        let v_cmd = clampf capped (minus c.v_retract) c.v_feed_max in
        record {
          next = record ns { state = st; integ = integ' };
          v_s_um_s = signed32 (pattern32 (lround (div (mul v_cmd (dec 1000 0)) (dec 60 0))));
          v_cmd_mm_min = v_cmd;
          state = st;
          g_telemetry = telemetry inp;
          g_target = telemetry_target;
          e_filtered = ns.e_f;
          integrator = integ';
        }
