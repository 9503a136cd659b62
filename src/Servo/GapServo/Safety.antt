-- ===== src/Servo/GapServo/Safety.antt =====
-- Bounds and safety of the velocity that the servo commands.
use fluid_edm.Base.{suc, ◌≤◌, ◌<◌, ◌≡◌, ◌⊎◌, inl, inr, false, arith, if◌then◌else◌, Bool-cases}
use fluid_edm.Base.Float.{Float, IsFloat, nought, clampf, clampf_bounds}
use fluid_edm.Servo.GapServo.{
  retract, arc_hold, break_relief, ServoConfig, GapServoInput, GapServoState, select,
  choose_velocity, regulate, count_shorts, step,
}

-- The sign conditions on the velocity limits of a configuration.
pub record IsServoConfig {F : Type 0} ⦃f : Float F⦄ (c : ServoConfig F) : Type 0 where
  pub feed_sign : f.lt c.v_feed_max nought ≡ false
  pub retract_sign : f.lt c.v_retract nought ≡ false
  pub ordered : f.lt c.v_feed_max (f.minus c.v_retract) ≡ false

-- The counters of the state stay in the ranges that the step keeps them in.
pub record IsServoState {F : Type 0} (c : ServoConfig F) (s : GapServoState F) : Type 0 where
  pub shorts : s.consec_short ≤ 255
  pub decimation : s.decim_count < suc c.pi_decimation

module _ {F : Type 0} ⦃f : Float F⦄ (laws : IsFloat F) (c : ServoConfig F)
    (v : IsServoConfig c) where
  -- If neither velocity limit of the configuration is negative, the limits are in order, and the
  -- comparisons obey the laws of IsFloat, the commanded velocity is never below the full retract
  -- speed nor above the feed limit.
  pub step_bounds :
      (s : GapServoState F) (inp : GapServoInput F)
      → (f.lt (step c s inp).v_cmd_mm_min (f.minus c.v_retract) ≡ false)
        × (f.lt c.v_feed_max (step c s inp).v_cmd_mm_min ≡ false)
  unfolding step
  step_bounds s inp = clampf_bounds laws _ (f.minus c.v_retract) c.v_feed_max v.ordered

  clampf_no_advance :
      (x : F)
      → f.lt nought x ≡ false
      → f.lt nought (clampf x (f.minus c.v_retract) c.v_feed_max) ≡ false
  unfolding clampf
  clampf_no_advance x h =
      ground
        (arith, laws.minus_sign c.v_retract v.retract_sign, laws.lt_trans nought c.v_feed_max x)

  -- When the servo retracts, relieves a wire break or holds an arc, or has no valid input outside
  -- of touch-off, it never commands a forward velocity, under the same conditions on the velocity
  -- limits and the comparisons as in step_bounds.
  pub step_no_advance :
      (s : GapServoState F) (inp : GapServoInput F)
      → ((step c s inp).state ≡ retract)
        ⊎ ((step c s inp).state ≡ break_relief)
        ⊎ ((step c s inp).state ≡ arc_hold)
        ⊎ (inp.valid ≡ false) × (inp.in_touch_off ≡ false)
      → f.lt nought (step c s inp).v_cmd_mm_min ≡ false
  unfolding step select choose_velocity
  step_no_advance s inp h =
      let ns = regulate c s inp in
      let still : f.lt nought (choose_velocity c ns inp) ≡ false =
        ground (arith, laws.lt_irrefl nought, laws.minus_sign c.v_retract v.retract_sign) in
      clampf_no_advance _ (rw still still)

  product_capped :
      (x cap : F) → cap ≡ nought → f.lt nought (if f.lt nought x then f.mul x cap else x) ≡ false
  product_capped x cap h = elim (Bool-cases (f.lt nought x)) [
    | inl forward ↦ rw (forward, h) (laws.mul_nought x)
    | inr backward ↦ rw backward backward
  ]

  -- With a feed cap of zero, as after a critical wire-break warning, the servo never commands a
  -- forward velocity, in any state and for any input, under the same conditions on the velocity
  -- limits and the comparisons as in step_bounds.
  pub step_capped :
      (s : GapServoState F) (inp : GapServoInput F)
      → inp.feed_cap_mult ≡ nought
      → f.lt nought (step c s inp).v_cmd_mm_min ≡ false
  unfolding step
  step_capped s inp h =
      let chosen = choose_velocity c (regulate c s inp) inp in
      clampf_no_advance _ (product_capped chosen inp.feed_cap_mult h)

-- From a state whose count of shorted windows fits a byte and whose decimation count is at most
-- its limit, a step leads to such a state.
pub step-IsServoState :
    {F : Type 0} ⦃f : Float F⦄ (c : ServoConfig F) (s : GapServoState F) (inp : GapServoInput F)
    → IsServoState c s
    → IsServoState c (step c s inp).next
unfolding step regulate count_shorts
step-IsServoState c s inp v = ground arith
