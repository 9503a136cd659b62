-- ===== src/Feed/TensionController.antt =====
-- EDM/Feed/TensionController.h and TensionController.cpp: one step of the tension controller, a pure
-- function of its state and input. The stages of `step` are functions of their own.
pub mod Collapse
use fluid_edm.Base.{
  ℕ, ◌+◌, ◌%◌, ◌^◌, ◌-◌, Bool, true, false, not, ◌&&◌, ◌||◌, if◌then◌else◌, ltb, leb, List, [], ◌∷◌,
  get_or,
}
use fluid_edm.Base.Int.{ℤ, signed32, pattern32}
use fluid_edm.Base.Float.{Float, nought, one, of_ℕ, clampf}

pub record TensionConfig (F : Type 0) : Type 0 where
  pub default_feed_mm_min : F
  pub feed_steps_per_mm : F
  pub feed_max_sps : F
  pub ff_ratio : F
  pub setpoint_n : F
  pub k_p : F
  pub k_i : F
  pub tens_alpha : F
  pub tens_deadband_n : F
  pub pi_clamp_sps : F
  pub tension_min_sps : F
  pub tension_max_sps : F
  pub tension_hold_sps : F
  pub integ_bleed : F
  -- an array of four
  pub sev_tension_scale : List F
  pub collapse_n : F
  pub collapse_frac : F
  pub loaded_frac : F
  pub loaded_recent_ms : ℕ
  pub collapse_ms : ℕ

pub record TensionInput (F : Type 0) : Type 0 where
  pub measured_n : F
  pub meas_valid : Bool
  pub feed_cap_mult : F
  pub severity : ℕ
  pub cutting : Bool
  pub commanded_feed_mm_min : F
  pub dt_ms : ℕ

pub record TensionState (F : Type 0) : Type 0 where
  pub meas_f : F
  pub e_f : F
  pub integ : F
  pub collapse_accum_ms : ℕ
  pub since_loaded_ms : ℕ
  pub collapse_latched : Bool
  pub meas_primed : Bool

pub record TensionOutput (F : Type 0) : Type 0 where
  pub next : TensionState F
  pub feed_steps_per_s : ℤ
  pub tension_steps_per_s : ℤ
  pub ff_sps : F
  pub pi_sps : F
  pub e_filtered : F
  pub integrator : F
  pub meas_f_n : F
  pub tension_collapse : Bool

-- `in.severity > 3 ? 3 : in.severity`
abbrev pub severity_of : {F : Type 0} → TensionInput F → ℕ
severity_of inp = if ltb 3 inp.severity then 3 else inp.severity

module _ {F : Type 0} ⦃f : Float F⦄ where
  open f use {dec, add, sub, mul, div, minus, fabs, lt, le, lround}

  -- the in-class initialisers
  abbrev pub default_tension : TensionConfig F
  default_tension = record {
    default_feed_mm_min = dec 60 0;
    feed_steps_per_mm = dec 100 0;
    feed_max_sps = dec 4000 0;
    ff_ratio = dec 1 0;
    setpoint_n = dec 5 0;
    k_p = dec 40 0;
    k_i = dec 8 0;
    tens_alpha = dec 30 2;
    tens_deadband_n = dec 25 2;
    pi_clamp_sps = dec 400 0;
    tension_min_sps = dec 0 0;
    tension_max_sps = dec 4000 0;
    tension_hold_sps = dec 200 0;
    integ_bleed = dec 5 1;
    sev_tension_scale = dec 1 0 ∷ dec 85 2 ∷ dec 60 2 ∷ dec 0 0 ∷ [];
    collapse_n = dec 50 2;
    collapse_frac = dec 20 2;
    loaded_frac = dec 50 2;
    loaded_recent_ms = 200;
    collapse_ms = 30;
  }

  -- `TensionController::reset`
  abbrev pub tension_reset : TensionState F
  tension_reset = record {
    meas_f = nought;
    e_f = nought;
    integ = nought;
    collapse_accum_ms = 0;
    since_loaded_ms = 0;
    collapse_latched = false;
    meas_primed = false;
  }

  module _ (c : TensionConfig F) where
    -- `feed_sps`, clamped, from the commanded or else the default feed
    unfoldable pub feed_rate : TensionInput F → F
    feed_rate inp =
        let feed_mm_min =
          if le nought inp.commanded_feed_mm_min
          then inp.commanded_feed_mm_min
          else c.default_feed_mm_min in
        let asked = mul (div feed_mm_min (dec 60 0)) c.feed_steps_per_mm in
        clampf (mul (if inp.cutting then asked else nought) inp.feed_cap_mult) nought c.feed_max_sps

    abbrev pub scale_of : TensionInput F → F
    scale_of inp = get_or c.sev_tension_scale (severity_of inp) nought

    -- `sp_eff`
    abbrev pub setpoint_of : TensionInput F → F
    setpoint_of inp = mul c.setpoint_n (scale_of inp)

    -- the moving average, which the first valid sample seeds
    unfoldable pub measure : TensionState F → TensionInput F → F
    measure s inp =
        if inp.meas_valid
        then (if s.meas_primed
            then add (mul c.tens_alpha inp.measured_n) (mul (sub one c.tens_alpha) s.meas_f)
            else inp.measured_n)
        else s.meas_f

    -- the integrator at the error `e`, before a bleed
    unfoldable pub integrate_tension : TensionState F → TensionInput F → F → F
    integrate_tension s inp e =
        let active =
          inp.cutting && (inp.meas_valid && (ltb (severity_of inp) 3 && not s.collapse_latched)) in
        let imax = div c.pi_clamp_sps c.k_i in
        if lt nought c.k_i && (not (lt (fabs e) c.tens_deadband_n) && active)
        then clampf (add s.integ (mul e (div (of_ℕ inp.dt_ms) (dec 1000 0)))) (minus imax) imax
        else s.integ

    -- `pi_sps`
    unfoldable pub pi_rate : F → F → F
    pi_rate e integ =
        clampf
          (if lt (fabs e) c.tens_deadband_n then nought else add (mul c.k_p e) (mul c.k_i integ))
          (minus c.pi_clamp_sps) c.pi_clamp_sps

    abbrev pub is_loaded : TensionInput F → Bool
    is_loaded inp = lt (mul c.loaded_frac (setpoint_of inp)) inp.measured_n

    -- the time since the wire was last loaded, which stops at the largest uint32_t
    abbrev pub since_loaded : TensionState F → TensionInput F → ℕ
    since_loaded s inp =
        let acc = (s.since_loaded_ms + inp.dt_ms) % 2 ^ 32 in
        if is_loaded inp then 0 else if ltb acc s.since_loaded_ms then 0xFFFFFFFF else acc

    -- `below && was_loaded_recently`
    abbrev pub is_collapsing : TensionState F → TensionInput F → Bool
    is_collapsing s inp =
        (lt inp.measured_n c.collapse_n
          && lt inp.measured_n (mul c.collapse_frac (setpoint_of inp)))
        && (is_loaded inp || leb (since_loaded s inp) c.loaded_recent_ms)

    -- the detection of a collapse of the tension, in a cut and with a valid measurement
    unfoldable pub watch_collapse : TensionState F → TensionInput F → TensionState F
    watch_collapse s inp =
        let accum = if is_collapsing s inp then (s.collapse_accum_ms + inp.dt_ms) % 2 ^ 32 else 0 in
        if inp.cutting && inp.meas_valid
        then record s {
          since_loaded_ms = since_loaded s inp;
          collapse_accum_ms = accum;
          collapse_latched = s.collapse_latched || leb c.collapse_ms accum;
        }
        else s

    unfoldable pub step_tension : TensionState F → TensionInput F → TensionOutput F
    step_tension s inp =
        let measured = measure s inp in
        let e = sub (setpoint_of inp) measured in
        let integ' = integrate_tension s inp e in
        let watched = watch_collapse s inp in
        let stopped = leb 3 (severity_of inp) || watched.collapse_latched in
        let kept = if stopped then mul integ' c.integ_bleed else integ' in
        let feed = feed_rate inp in
        let ff = mul c.ff_ratio feed in
        let pi = pi_rate e integ' in
        let tension = if stopped then c.tension_hold_sps else add (mul ff (scale_of inp)) pi in
        record {
          next = record watched {
            meas_f = measured;
            e_f = e;
            integ = kept;
            meas_primed = s.meas_primed || inp.meas_valid;
          };
          feed_steps_per_s = signed32 (pattern32 (lround (if stopped then nought else feed)));
          tension_steps_per_s =
              signed32 (pattern32 (lround (clampf tension c.tension_min_sps c.tension_max_sps)));
          ff_sps = ff;
          pi_sps = pi;
          e_filtered = e;
          integrator = kept;
          meas_f_n = measured;
          tension_collapse = watched.collapse_latched;
        }

    -- the state after the inputs of a list, one step for each
    unfoldable pub steps_tension : TensionState F → List (TensionInput F) → TensionState F
    steps_tension s [] = s
    steps_tension s (inp ∷ inps) = steps_tension (step_tension s inp).next inps
