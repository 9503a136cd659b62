-- ===== src/Motion/PathSampler.antt =====
-- EDM/Motion/PathSampler.h and PathSampler.cpp: from the commanded velocity to moves along the contour.
pub mod Limits
use fluid_edm.Base.{
  ℕ, ◌+◌, Bool, true, false, Option, none, some, ◌&&◌, ◌||◌, not, if◌then◌else◌, ltb,
}
use fluid_edm.Base.Int.{ℤ, pos, pos_part, neg_part, leb_ℤ}
use fluid_edm.Base.Float.{Float, nought, clampf}
use fluid_edm.Motion.Pose4.{Pose4, Cmath, origin}
use fluid_edm.Motion.ContourBuffer.{ContourBuffer, pose_at, total_len, retract_floor}

pub record SamplerConfig (F : Type 0) : Type 0 where
  pub dt_min_s : F
  pub dt_max_s : F
  pub seg_min_mm : F
  pub seg_max_mm : F
  pub a_max_mm_s2 : F
  pub v_max_mm_s : F
  pub v_floor_um_s : ℕ
  pub retract_max_mm : F
  pub eps_end_mm : F
  pub feed_floor_mm_min : F

-- `dir`, an int8_t that is only ever -1, 0 or 1
pub data Direction : Type 0 where
  backward still forward : Direction

pub record SamplerState (F : Type 0) : Type 0 where
  pub s : F
  pub s_max : F
  pub s_emit : F
  pub v_mm_s : F
  pub dir : Direction
  pub done : Bool

pub data Emit : Type 0 where
  emit_none emit_advance emit_retract : Emit

pub record SampleResult (F : Type 0) : Type 0 where
  pub emit : Emit
  pub target : Pose4 F
  pub s_target : F
  pub seg_len_mm : F
  pub feed_mm_min : F
  pub block_done : Bool
  pub at_retract_floor : Bool

-- `new_dir != 0 && st.dir != 0 && new_dir != st.dir`
abbrev pub reverses : Direction → Direction → Bool
reverses forward backward = true
reverses backward forward = true
reverses _ _ = false

abbrev pub is_forward : Direction → Bool
is_forward forward = true
is_forward _ = false

abbrev pub is_still : Direction → Bool
is_still still = true
is_still _ = false

abbrev pub emit_of : Direction → Emit
emit_of forward = emit_advance
emit_of _ = emit_retract

module _ {F : Type 0} ⦃f : Float F⦄ ⦃m : Cmath F⦄ (b : ContourBuffer F) (c : SamplerConfig F) where
  open f use {dec, of_int, add, sub, mul, minus, fabs, lt, le}

  abbrev pub no_sample : SampleResult F
  no_sample = record {
    emit = emit_none;
    target = origin;
    s_target = nought;
    seg_len_mm = nought;
    feed_mm_min = nought;
    block_done = false;
    at_retract_floor = false;
  }

  -- the ramped velocity, and the distance and direction of this step
  abbrev pub time_step : F → F
  time_step dt_s = clampf dt_s c.dt_min_s c.dt_max_s

  unfoldable pub ramp : SamplerState F → ℤ → F → F
  ramp st v_cmd dt_s =
      let asked =
        if ltb (pos_part v_cmd + neg_part v_cmd) c.v_floor_um_s
        then nought
        else mul (of_int v_cmd) (dec 1 3) in
      let v_target = clampf asked (minus c.v_max_mm_s) c.v_max_mm_s in
      let dv = mul c.a_max_mm_s2 (time_step dt_s) in
      clampf v_target (sub st.v_mm_s dv) (add st.v_mm_s dv)

  abbrev pub direction_of : F → Direction
  direction_of ds = if lt nought ds then forward else if lt ds nought then backward else still

  -- `emitTo`
  abbrev pub emit_to :
      SamplerState F → SampleResult F → F → Direction → SamplerState F × SampleResult F
  emit_to st r s_target dir = (
    record st { s_emit = s_target; dir = dir },
    record r {
      emit = emit_of dir;
      target = pose_at b s_target;
      s_target = s_target;
      feed_mm_min = m.fmax (mul (fabs st.v_mm_s) (dec 60 0)) c.feed_floor_mm_min;
    },
  )

  -- the flush before a reversal
  unfoldable pub flush : SamplerState F → Direction → SamplerState F × SampleResult F
  flush st new_dir =
      let pending = fabs (sub st.s st.s_emit) in
      let seg = if lt c.seg_max_mm pending then c.seg_max_mm else pending in
      let ahead = lt st.s_emit st.s in
      let s_target = if ahead then add st.s_emit seg else sub st.s_emit seg in
      let (st', r) =
        emit_to st (record no_sample { seg_len_mm = seg }) s_target
          (if ahead then forward else backward) in
      (record st' { dir = new_dir }, r)

  -- the position that the step wants, limited by the end of the contour or the retract floor
  unfoldable pub wanted : SamplerState F → F → Direction → F
  wanted st ds dir =
      let s_want = add st.s ds in
      let low = retract_floor b st.s_max c.retract_max_mm in
      if is_forward dir
      then (if lt (total_len b) s_want then total_len b else s_want)
      else (if lt s_want low then low else s_want)

  unfoldable pub reaches_end : SamplerState F → F → Direction → Bool
  reaches_end st ds dir = is_forward dir && le (sub (total_len b) c.eps_end_mm) (wanted st ds dir)

  unfoldable pub hits_floor : SamplerState F → F → Direction → Bool
  hits_floor st ds dir =
      not (is_forward dir) && lt (add st.s ds) (retract_floor b st.s_max c.retract_max_mm)

  -- the state that has moved to the wanted position, before a move is emitted
  abbrev pub moved : SamplerState F → F → Direction → SamplerState F
  moved st ds dir =
      let s_want = wanted st ds dir in
      record st {
        s = s_want;
        s_max = if is_forward dir && lt st.s_max s_want then s_want else st.s_max;
      }

  unfoldable pub advance : SamplerState F → ℤ → F → Direction → SamplerState F × SampleResult F
  advance st v_cmd ds dir =
      let st1 = moved st ds dir in
      let end = reaches_end st ds dir in
      let flags = record no_sample { block_done = end; at_retract_floor = hits_floor st ds dir } in
      let pending = fabs (sub st1.s st.s_emit) in
      let seg = if lt c.seg_max_mm pending then c.seg_max_mm else pending in
      let asked = if is_forward dir then add st.s_emit seg else sub st.s_emit seg in
      let beyond = if is_forward dir then lt st1.s asked else lt asked st1.s in
      let s_target = if beyond then st1.s else asked in
      let (st2, r) =
        emit_to st1 (record flags { seg_len_mm = fabs (sub s_target st.s_emit) }) s_target dir in
      if le c.seg_min_mm pending || end
      then (record st2 { done = st.done || end && leb_ℤ (pos 0) v_cmd }, r)
      else (record st1 { dir = dir }, flags)

  unfoldable pub sample : SamplerState F → ℤ → F → SamplerState F × SampleResult F
  sample st v_cmd dt_s =
      let v = ramp st v_cmd dt_s in
      let st1 = record st { v_mm_s = v } in
      let ds = mul v (time_step dt_s) in
      let dir = direction_of ds in
      let flushed = flush st1 dir in
      let advanced = advance st1 v_cmd ds dir in
      if reverses dir st.dir && le c.eps_end_mm (fabs (sub st.s st.s_emit))
      then flushed
      else if is_still dir
      then (record st1 { dir = still }, no_sample)
      else advanced
