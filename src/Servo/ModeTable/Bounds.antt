-- ===== src/Servo/ModeTable/Bounds.antt =====
-- What the table sends to the power supply.
use fluid_edm.Base.{ℕ, ◌^◌, ◌≤◌, ◌<◌, ◌≡◌, ◌≢◌, true, arith}
use fluid_edm.Base.Float.{Float}
use fluid_edm.Psu.Messages.{IsSetModeBounds}
use fluid_edm.Psu.Codec.{encode_set_mode_bounds}
use fluid_edm.Psu.Codec.Layout.{read_set_mode_bounds, read-encode_set_mode_bounds}
use fluid_edm.Servo.ModeTable.{
  EdmMode, idle, ignite, finish, rough, ModeTable, ModeParams, params, build, scaled_setpoint,
}

-- What the field types say of a row.
pub record IsModeParams (v : ModeParams) : Type 0 where
  pub mode_id_fits : v.mode_id < 2 ^ 8
  pub freq_max_khz_fits : v.freq_max_khz < 2 ^ 16
  pub on_time_max_ns_fits : v.on_time_max_ns < 2 ^ 16
  pub off_time_min_ns_fits : v.off_time_min_ns < 2 ^ 16
  pub peak_i_setpoint_da_fits : v.peak_i_setpoint_da < 2 ^ 16
  pub peak_i_limit_hw_da_fits : v.peak_i_limit_hw_da < 2 ^ 16
  pub polarity_fits : v.polarity < 2 ^ 8
  pub flags_fits : v.flags < 2 ^ 16
  pub gap_v_arc_mv_fits : v.gap_v_arc_mv < 2 ^ 16
  pub gap_v_short_mv_fits : v.gap_v_short_mv < 2 ^ 16
  pub ignition_timeout_us_fits : v.ignition_timeout_us < 2 ^ 16

pub record IsModeTable (t : ModeTable) : Type 0 where
  pub rough_fits : IsModeParams t.rough_params
  pub finish_fits : IsModeParams t.finish_params
  pub ignite_fits : IsModeParams t.ignite_params

pub params-IsModeParams : (t : ModeTable) (m : EdmMode) → IsModeTable t → IsModeParams (params t m)
unfolding params
params-IsModeParams t rough v = v.rough_fits
params-IsModeParams t finish v = v.finish_fits
params-IsModeParams t ignite v = v.ignite_fits
params-IsModeParams t idle v = v.ignite_fits

module _ (F : Type 0) ⦃f : Float F⦄ where
  scaled_setpoint-le :
      (t : ModeTable) (p : ModeParams) (m : EdmMode) (s : ℕ)
      → scaled_setpoint F t p m s ≤ p.peak_i_limit_hw_da
  unfolding scaled_setpoint
  scaled_setpoint-le t p m s = ground arith

  -- With the adaptive setpoint and in any mode but Idle the current asked for never exceeds the
  -- hardware limit of the mode, whatever the S-word and the floating-point results.
  pub build-peak-le :
      (t : ModeTable) (m : EdmMode) (s seq : ℕ)
      → t.adaptive_setpoint ≡ true
      → m ≢ idle
      → (build F t m s seq).peak_i_setpoint_da ≤ (params t m).peak_i_limit_hw_da
  unfolding build
  build-peak-le t m s seq on busy = ground (arith, scaled_setpoint-le t (params t m) m s)

  pub build-IsSetModeBounds :
      (t : ModeTable) (m : EdmMode) (s seq : ℕ)
      → IsModeTable t
      → seq < 2 ^ 16
      → IsSetModeBounds (build F t m s seq)
  unfolding build
  build-IsSetModeBounds t m s seq v h =
      let row = params-IsModeParams t m v in
      record {
        mode_id_fits = row.mode_id_fits;
        seq_fits = h;
        freq_max_khz_fits = row.freq_max_khz_fits;
        on_time_max_ns_fits = row.on_time_max_ns_fits;
        off_time_min_ns_fits = row.off_time_min_ns_fits;
        peak_i_setpoint_da_fits = ground (arith, scaled_setpoint-le t (params t m) m s);
        peak_i_limit_hw_da_fits = row.peak_i_limit_hw_da_fits;
        polarity_fits = row.polarity_fits;
        flags_fits = row.flags_fits;
        gap_v_arc_mv_fits = row.gap_v_arc_mv_fits;
        gap_v_short_mv_fits = row.gap_v_short_mv_fits;
        ignition_timeout_us_fits = row.ignition_timeout_us_fits;
      }

  -- The power supply reads exactly the bounds that the table builds, for any mode and S-word, when
  -- the rows and the sequence number lie in the ranges of their integer types.
  pub read-encode-build :
      (t : ModeTable) (m : EdmMode) (s seq : ℕ)
      → IsModeTable t
      → seq < 2 ^ 16
      → read_set_mode_bounds (encode_set_mode_bounds (build F t m s seq)) ≡ build F t m s seq
  read-encode-build t m s seq v h =
      read-encode_set_mode_bounds (build F t m s seq) (build-IsSetModeBounds t m s seq v h)
