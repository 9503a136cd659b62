-- ===== src/Motion/PathSampler/Limits.antt =====
-- How far the sampler goes along the contour and back.
use fluid_edm.Base.{◌≡◌, ◌⊎◌, true, false, arith}
use fluid_edm.Base.Int.{ℤ}
use fluid_edm.Base.Float.{Float, IsFloat}
use fluid_edm.Motion.Pose4.{Cmath}
use fluid_edm.Motion.ContourBuffer.{ContourBuffer, total_len, retract_floor}
use fluid_edm.Motion.PathSampler.{
  SamplerConfig, SamplerState, Direction, wanted, flush, advance, reaches_end, sample, is_forward,
  direction_of, ramp, time_step,
}

module _ {F : Type 0} ⦃f : Float F⦄ ⦃m : Cmath F⦄ (laws : IsFloat F) (b : ContourBuffer F)
    (c : SamplerConfig F) where
  wanted-limits :
      (st : SamplerState F) (ds : F) (dir : Direction)
      → ((is_forward dir ≡ true) × (f.lt (total_len b) (wanted b c st ds dir) ≡ false))
        ⊎ (is_forward dir ≡ false)
          × (f.lt (wanted b c st ds dir) (retract_floor b st.s_max c.retract_max_mm) ≡ false)
  unfolding wanted
  wanted-limits st ds dir =
      let low = retract_floor b st.s_max c.retract_max_mm in
      ground (arith, laws.lt_irrefl (total_len b), laws.lt_irrefl low)

  advance_s :
      (st : SamplerState F) (v_cmd : ℤ) (ds : F) (dir : Direction)
      → ((advance b c st v_cmd ds dir).0.s ≡ wanted b c st ds dir)
        × (((advance b c st v_cmd ds dir).0.s_max ≡ st.s_max)
            ⊎ (f.lt st.s_max (advance b c st v_cmd ds dir).0.s_max ≡ true))
  unfolding advance
  advance_s st v_cmd ds dir = ground arith

  advance_done :
      (st : SamplerState F) (v_cmd : ℤ) (ds : F) (dir : Direction)
      → (advance b c st v_cmd ds dir).0.done ≡ true
      → (st.done ≡ true)
        ⊎ (f.le (f.sub (total_len b) c.eps_end_mm) (advance b c st v_cmd ds dir).0.s ≡ true)
  unfolding advance reaches_end
  advance_done st v_cmd ds dir h = ground arith

  -- Whatever velocity is commanded, a step leaves the position where it was, or moves it to a
  -- place not beyond the end of the contour, or to one not before the retract floor; and the
  -- furthest position never moves back. The comparisons obey the laws of IsFloat.
  pub sample_limits :
      (st : SamplerState F) (v_cmd : ℤ) (dt_s : F)
      → let st' = (sample b c st v_cmd dt_s).0 in
        ((st'.s ≡ st.s)
          ⊎ (f.lt (total_len b) st'.s ≡ false)
          ⊎ (f.lt st'.s (retract_floor b st.s_max c.retract_max_mm) ≡ false))
        × ((st'.s_max ≡ st.s_max) ⊎ (f.lt st.s_max st'.s_max ≡ true))
  unfolding sample flush
  sample_limits st v_cmd dt_s =
      let v = ramp b c st v_cmd dt_s in
      let st1 : SamplerState F = record st { v_mm_s = v } in
      let ds = f.mul v (time_step b c dt_s) in
      let dir = direction_of b c ds in
      ground (arith, advance_s st1 v_cmd ds dir, wanted-limits st1 ds dir)

  -- A step reports the cut as done only if it was done before, or if the step left the position within
  -- the tolerance of the end of the contour.
  pub sample_done :
      (st : SamplerState F) (v_cmd : ℤ) (dt_s : F)
      → (sample b c st v_cmd dt_s).0.done ≡ true
      → (st.done ≡ true)
        ⊎ (f.le (f.sub (total_len b) c.eps_end_mm) (sample b c st v_cmd dt_s).0.s ≡ true)
  unfolding sample flush
  sample_done st v_cmd dt_s h =
      let v = ramp b c st v_cmd dt_s in
      let st1 : SamplerState F = record st { v_mm_s = v } in
      let ds = f.mul v (time_step b c dt_s) in
      let dir = direction_of b c ds in ground (arith, advance_done st1 v_cmd ds dir)
