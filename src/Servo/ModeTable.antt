-- ===== src/Servo/ModeTable.antt =====
-- EDM/Servo/ModeTable.h and ModeTable.cpp: the S-word selects the energy mode, whose row of the
-- table becomes the bounds for the power supply.
pub mod Bands
pub mod Bounds
use fluid_edm.Base.{
  ℕ, ◌+◌, ◌-◌, ◌%◌, ◌^◌, Bool, true, false, not, ◌&&◌, if◌then◌else◌, ltb, leb, ◌==◌,
}
use fluid_edm.Base.Int.{ℤ, pos_part, pattern32}
use fluid_edm.Base.Float.{Float, nought, of_ℕ}
use fluid_edm.Psu.Messages.{SetModeBounds}

pub data EdmMode : Type 0 where
  idle ignite finish rough : EdmMode

pub record ModeParams : Type 0 where
  pub mode_id : ℕ
  pub freq_max_khz : ℕ
  pub on_time_max_ns : ℕ
  pub off_time_min_ns : ℕ
  pub peak_i_setpoint_da : ℕ
  pub peak_i_limit_hw_da : ℕ
  pub polarity : ℕ
  pub flags : ℕ
  pub gap_v_arc_mv : ℕ
  pub gap_v_short_mv : ℕ
  pub ignition_timeout_us : ℕ
  pub ign_delay_nom_ns : ℕ

pub record ModeTable : Type 0 where
  pub rough_params : ModeParams
  pub finish_params : ModeParams
  pub ignite_params : ModeParams
  pub ignite_max : ℕ
  pub finish_max : ℕ
  pub adaptive_setpoint : Bool

-- the in-class initialisers
abbrev pub default_params : ModeParams
default_params = record {
  mode_id = 0;
  freq_max_khz = 0;
  on_time_max_ns = 0;
  off_time_min_ns = 0;
  peak_i_setpoint_da = 0;
  peak_i_limit_hw_da = 0;
  polarity = 0;
  flags = 0;
  gap_v_arc_mv = 0;
  gap_v_short_mv = 0;
  ignition_timeout_us = 0;
  ign_delay_nom_ns = 10_000;
}

abbrev pub default_table : ModeTable
default_table = record {
  rough_params = default_params;
  finish_params = default_params;
  ignite_params = default_params;
  ignite_max = 99;
  finish_max = 499;
  adaptive_setpoint = false;
}

unfoldable pub mode_for_sword : ModeTable → ℕ → EdmMode
mode_for_sword t s =
    if s == 0
    then idle
    else if leb s t.ignite_max
    then ignite
    else if leb s t.finish_max
    then finish
    else rough

unfoldable pub params : ModeTable → EdmMode → ModeParams
params t rough = t.rough_params
params t finish = t.finish_params
params t _ = t.ignite_params

unfoldable pub lower_energy : EdmMode → EdmMode
lower_energy rough = finish
lower_energy finish = ignite
lower_energy _ = ignite

abbrev pub is_idle : EdmMode → Bool
is_idle idle = true
is_idle _ = false

-- the S-words of a mode's band, `lo` and `hi` of `build`, as uint16_t
abbrev pub band_lo : ModeTable → EdmMode → ℕ
band_lo t ignite = 1
band_lo t finish = (t.ignite_max + 1) % 2 ^ 16
band_lo t _ = (t.finish_max + 1) % 2 ^ 16

abbrev pub band_hi : ModeTable → EdmMode → ℕ
band_hi t ignite = t.ignite_max
band_hi t finish = t.finish_max
band_hi t _ = 1000

-- `if (s_word < lo) s_word = lo; if (s_word > hi) s_word = hi;`
abbrev pub clamp_sword : ℕ → ℕ → ℕ → ℕ
clamp_sword lo hi s = let s' = if ltb s lo then lo else s in if ltb hi s' then hi else s'

-- over the type of `float`, which the statement of a setpoint does not show
module _ (F : Type 0) ⦃f : Float F⦄ where
  open f use {dec, add, mul, div, trunc}

  -- The conversion to uint32_t is that of a value in range: `base` is a 16-bit number and the factor
  -- lies in [0.5, 1].
  pub scaled_setpoint : ModeTable → ModeParams → EdmMode → ℕ → ℕ
  scaled_setpoint t p m s_word =
      let lo = band_lo t m in
      let hi = band_hi t m in
      let s = clamp_sword lo hi s_word in
      let ratio = if ltb lo hi then div (of_ℕ (s - lo)) (of_ℕ (hi - lo)) else nought in
      let scaled =
        pattern32 (trunc (mul (of_ℕ p.peak_i_setpoint_da) (add (dec 5 1) (mul (dec 5 1) ratio)))) in
      (if ltb p.peak_i_limit_hw_da scaled then p.peak_i_limit_hw_da else scaled) % 2 ^ 16

  unfoldable pub build : ModeTable → EdmMode → ℕ → ℕ → SetModeBounds
  build t m s_word seq =
      let p = params t m in
      record {
        mode_id = p.mode_id;
        seq = seq;
        freq_max_khz = p.freq_max_khz;
        on_time_max_ns = p.on_time_max_ns;
        off_time_min_ns = p.off_time_min_ns;
        peak_i_setpoint_da =
            if t.adaptive_setpoint && not (is_idle m)
            then scaled_setpoint t p m s_word
            else p.peak_i_setpoint_da;
        peak_i_limit_hw_da = p.peak_i_limit_hw_da;
        polarity = p.polarity;
        flags = p.flags;
        gap_v_arc_mv = p.gap_v_arc_mv;
        gap_v_short_mv = p.gap_v_short_mv;
        ignition_timeout_us = p.ignition_timeout_us;
      }
