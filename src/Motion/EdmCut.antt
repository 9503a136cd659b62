-- ===== src/Motion/EdmCut.antt =====
-- EDM/Motion/EdmMotion.cpp: `runCut` and `runCutArc`. The check of a line by the kinematics, and the
-- machine positions that `get_mpos` returns from call to call, are parameters.
pub mod Limits
use fluid_edm.Base.{
  ℕ, zero, suc, ◌+◌, ◌-◌, ◌*◌, ◌%◌, ◌^◌, Bool, true, false, if◌then◌else◌, ltb, List, [], ◌∷◌,
  get_or,
}
use fluid_edm.Base.Float.{Float, nought, of_ℕ}
use fluid_edm.Motion.Pose4.{Pose4, Cmath}
use fluid_edm.Motion.ContourBuffer.{
  Vertex, ContourBuffer, new_contour, max_vertices, reset_contour, append_line, append_arc,
}
use fluid_edm.Motion.PathSampler.{SamplerState}
use fluid_edm.Motion.EdmMotion.{
  Effect, request_stop, send_alarm, soft_limit, Pass, Finish, returned, pose_from, fan_out,
  new_sampler, run_contour,
}

module _ {F : Type 0} ⦃f : Float F⦄ where
  open f use {dec, add, sub, mul, minus, lt, le}

  -- the loop over the vertices from the vertex i on: whether one breaks a soft limit
  unfoldable pub breaks_limit : (List F → Bool) → (ℕ → List F) → ℕ → List (Vertex F) → Bool
  breaks_limit invalid_line mpos i [] = false
  breaks_limit invalid_line mpos i (v ∷ vs) =
      let rest = breaks_limit invalid_line mpos (suc i) vs in
      if invalid_line (fan_out v.pose (mpos i)) then true else rest

  -- static_cast<float>(M_PI), and ARC_ANGULAR_TRAVEL_EPSILON (FluidNC/src/Config.h)
  abbrev pub pi_f : F
  pi_f = dec 314159265358979323846 20

  abbrev pub travel_epsilon : F
  travel_epsilon = dec 5 7

  -- the whole turns beyond the first, as an angle
  abbrev pub extra_turns : ℕ → F
  extra_turns rotations = mul (of_ℕ ((rotations - 1) * 2 % 2 ^ 32)) pi_f

  -- the angle of the arc, from the angle between its ends
  unfoldable pub arc_travel : F → Bool → ℕ → F
  arc_travel between is_clockwise rotations =
      let turn = mul (dec 2 0) pi_f in
      let down = if le (minus travel_epsilon) between then sub between turn else between in
      let up = if le between travel_epsilon then add between turn else between in
      if is_clockwise
      then (if ltb 1 rotations then sub down (extra_turns rotations) else down)
      else (if ltb 1 rotations then add up (extra_turns rotations) else up)

module _ {F : Type 0} ⦃f : Float F⦄ ⦃m : Cmath F⦄ where
  open f use {add, sub, mul, minus}

  -- The limits first, and then the loop of `runContour`. `has_ctl` tells that the spindle is the EDM one.
  unfoldable pub run_checked :
      (List F → Bool)
      → (ℕ → List F)
      → Bool
      → ContourBuffer F
      → ℕ
      → ℕ
      → List (Pass F)
      → SamplerState F × List (Effect F) × Finish
  run_checked invalid_line mpos has_ctl contour blocks start passes =
      let run = run_contour contour blocks start passes in
      if has_ctl
      then (if breaks_limit invalid_line mpos 0 contour.vertices
          then (new_sampler, request_stop ∷ send_alarm soft_limit ∷ [], returned false)
          else run)
      else (new_sampler, [], returned false)

  -- the contour of `runCut`, from the position `here`
  abbrev pub line_contour : List F → List F → ContourBuffer F
  line_contour here target =
      append_line (reset_contour (new_contour max_vertices) (pose_from here) nought)
        (pose_from target)

  abbrev pub run_cut :
      (List F → Bool)
      → List F
      → (ℕ → List F)
      → Bool
      → List F
      → ℕ
      → ℕ
      → List (Pass F)
      → SamplerState F × List (Effect F) × Finish
  run_cut invalid_line here mpos has_ctl target blocks start passes =
      run_checked invalid_line mpos has_ctl (line_contour here target) blocks start passes

  -- the contour of `runCutArc`
  unfoldable pub arc_contour :
      List F → List F → List F → List F → F → ℕ → ℕ → Bool → ℕ → F → ContourBuffer F
  arc_contour here target position offset radius axis_0 axis_1 is_clockwise rotations
        arc_tolerance =
      let at : List F → ℕ → F = λ l i. get_or l i nought in
      let center_x = add (at position axis_0) (at offset axis_0) in
      let center_y = add (at position axis_1) (at offset axis_1) in
      let radii_0 = minus (at offset axis_0) in
      let radii_1 = minus (at offset axis_1) in
      let rt_0 = sub (at target axis_0) center_x in
      let rt_1 = sub (at target axis_1) center_y in
      let between =
        m.atan2 (sub (mul radii_0 rt_1) (mul radii_1 rt_0))
          (add (mul radii_0 rt_0) (mul radii_1 rt_1)) in
      append_arc (reset_contour (new_contour max_vertices) (pose_from here) nought)
        (pose_from target) center_x center_y radius (arc_travel between is_clockwise rotations)
        arc_tolerance

  abbrev pub run_cut_arc :
      (List F → Bool)
      → List F
      → (ℕ → List F)
      → Bool
      → List F
      → List F
      → List F
      → F
      → ℕ
      → ℕ
      → Bool
      → ℕ
      → F
      → ℕ
      → ℕ
      → List (Pass F)
      → SamplerState F × List (Effect F) × Finish
  run_cut_arc invalid_line here mpos has_ctl target position offset radius axis_0 axis_1
        is_clockwise rotations arc_tolerance blocks start passes =
      run_checked invalid_line mpos has_ctl
        (arc_contour here target position offset radius axis_0 axis_1 is_clockwise rotations
          arc_tolerance)
        blocks start passes
