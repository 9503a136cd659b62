-- ===== src/Motion/EdmMotion.antt =====
-- EDM/Motion/EdmMotion.cpp: the loop that feeds the planner from the servo, and the cuts along a line
-- and an arc. What a pass of the loop reads (the clock, the states of the machine and of the process
-- controller, the room in the planner, the answer of `plan_buffer_line`) is an argument, for pass by
-- pass; the calls that the loop makes are the list of its effects, in order. Log lines are left out.
pub mod Turns
pub mod Exit
use fluid_edm.Base.{
  ℕ, zero, suc, ◌+◌, ◌-◌, ◌*◌, ◌%◌, ◌^◌, Bool, true, false, not, ◌&&◌, ◌||◌, if◌then◌else◌, ltb,
  leb, List, [], ◌∷◌, ◌++◌, get_or, set,
}
use fluid_edm.Base.Int.{ℤ, pos, leb_ℤ}
use fluid_edm.Base.Float.{Float, nought, of_ℕ}
use fluid_edm.Control.Report.{
  EdmState, idle, armed, touch_off, cutting, hold_state, break_relief_state, stall_fault, fault,
}
use fluid_edm.Motion.Pose4.{Pose4, Cmath}
use fluid_edm.Motion.ContourBuffer.{
  Vertex, ContourBuffer, new_contour, max_vertices, reset_contour, append_line, append_arc,
}
use fluid_edm.Motion.PathSampler.{
  SamplerConfig, SamplerState, SampleResult, Emit, emit_none, emit_advance, emit_retract, sample,
  still,
}

-- the members of `ExecAlarm` (FluidNC/src/Alarm.h) that are sent
pub data ExecAlarm : Type 0 where
  soft_limit abort_cycle : ExecAlarm

-- A line that the planner takes: the axes, and what `runContour` sets in `plan_line_data_t`.
pub record PlanLine (F : Type 0) : Type 0 where
  pub axes : List F
  pub feed_rate : F
  pub rapid_motion : Bool
  pub no_feed_override : Bool
  pub inverse_time : Bool
  pub limits_checked : Bool

pub data Effect (F : Type 0) : Type 0 where
  request_stop : Effect F
  send_alarm : ExecAlarm → Effect F
  synchronize : Effect F
  buffer_line : PlanLine F → Effect F

abbrev pub edm_max_inflight : ℕ
edm_max_inflight = 3

-- One turn of the wait for the planner: what it finds, and the state after the realtime commands.
pub record Poll : Type 0 where
  pub free_blocks : ℕ
  pub full : Bool
  pub abort : Bool
  pub alarm : Bool

-- What one pass of the loop reads. `running` is `State::Cycle` or `State::Idle`; `now` is the clock
-- where the pass reads it; `accepted` is the answer of `plan_buffer_line`.
pub record Pass (F : Type 0) : Type 0 where
  pub abort : Bool
  pub alarm : Bool
  pub es : EdmState
  pub running : Bool
  pub now : ℕ
  pub v : ℤ
  pub polls : List Poll
  pub mpos : List F
  pub accepted : Bool

pub data Waited : Type 0 where
  room stopped waiting : Waited

-- a state in which the loop raises an alarm
abbrev pub is_faulted : EdmState → Bool
is_faulted stall_fault = true
is_faulted fault = true
is_faulted _ = false

abbrev pub is_idle_state : EdmState → Bool
is_idle_state idle = true
is_idle_state _ = false

-- the wait for room, as far as the polls go
unfoldable pub wait_room : ℕ → List Poll → Waited
wait_room planner_blocks [] = waiting
wait_room planner_blocks (p ∷ ps) =
    let rest = wait_room planner_blocks ps in
    let in_flight = planner_blocks - 1 - p.free_blocks in
    if not p.full && ltb in_flight edm_max_inflight
    then room
    else if p.abort
    then stopped
    else if p.alarm
    then stopped
    else rest

-- How a pass ends: the loop goes on, it returns, or it still waits for the planner.
pub data Turn (F : Type 0) : Type 0 where
  again : SamplerState F → ℕ → List (Effect F) → Turn F
  leave : SamplerState F → List (Effect F) → Bool → Turn F
  stuck : Turn F

pub data Finish : Type 0 where
  going : Finish
  returned : Bool → Finish

module _ {F : Type 0} ⦃f : Float F⦄ where
  -- X_AXIS, Y_AXIS, U_AXIS and V_AXIS are 0, 1, 6 and 7.
  abbrev pub pose_from : List F → Pose4 F
  pose_from m = record {
    x = get_or m 0 nought;
    y = get_or m 1 nought;
    u = get_or m 6 nought;
    v = get_or m 7 nought;
  }

  abbrev pub fan_out : Pose4 F → List F → List F
  fan_out p mpos = set (set (set (set mpos 0 p.x) 1 p.y) 6 p.u) 7 p.v

  -- `SamplerConfig cfg{}`
  abbrev pub default_sampler : SamplerConfig F
  default_sampler = record {
    dt_min_s = f.dec 5 4;
    dt_max_s = f.dec 200 4;
    seg_min_mm = f.dec 20 3;
    seg_max_mm = f.dec 150 3;
    a_max_mm_s2 = f.dec 200 0;
    v_max_mm_s = f.dec 100 3;
    v_floor_um_s = 5;
    retract_max_mm = f.dec 3 0;
    eps_end_mm = f.dec 1 4;
    feed_floor_mm_min = f.dec 5 1;
  }

  -- `SamplerState st{}`
  abbrev pub new_sampler : SamplerState F
  new_sampler = record {
    s = nought;
    s_max = nought;
    s_emit = nought;
    v_mm_s = nought;
    dir = still;
    done = false;
  }

  -- the segment of a sample
  abbrev pub line_of : SampleResult F → List F → PlanLine F
  line_of r mpos = record {
    axes = fan_out r.target mpos;
    feed_rate = r.feed_mm_min;
    rapid_motion = false;
    no_feed_override = true;
    inverse_time = false;
    limits_checked = true;
  }

  -- the end of a pass, after its segment is queued
  unfoldable pub settle_pass : Pass F → SamplerState F → SampleResult F → List (Effect F) → Turn F
  settle_pass p st r queued =
      if r.block_done && leb_ℤ (pos 0) p.v
      then leave st (queued ++ (synchronize ∷ [])) true
      else again st p.now queued

  -- a pass with a segment, by the end of its wait
  unfoldable pub submit_after : Waited → Pass F → SamplerState F → SampleResult F → Turn F
  submit_after waiting p st r = stuck
  submit_after stopped p st r = leave st (request_stop ∷ []) false
  submit_after room p st r =
      if p.accepted
      then settle_pass p st r (buffer_line (line_of r p.mpos) ∷ [])
      else leave st (request_stop ∷ send_alarm soft_limit ∷ []) false

  -- `if (r.emit != Emit::None)`
  unfoldable pub emit_pass : ℕ → Pass F → SamplerState F → SampleResult F → Emit → Turn F
  emit_pass planner_blocks p st r emit_none = settle_pass p st r []
  emit_pass planner_blocks p st r emit_advance =
      submit_after (wait_room planner_blocks p.polls) p st r
  emit_pass planner_blocks p st r emit_retract =
      submit_after (wait_room planner_blocks p.polls) p st r

module _ {F : Type 0} ⦃f : Float F⦄ ⦃m : Cmath F⦄ where
  open f use {dec, add, sub, mul, minus, lt, le}

  abbrev pub elapsed : ℕ → ℕ → F
  elapsed prev now = mul (of_ℕ ((now + 2 ^ 32 - prev) % 2 ^ 32)) (dec 1 3)

  unfoldable pub turn : ContourBuffer F → ℕ → SamplerState F → ℕ → Pass F → Turn F
  turn contour planner_blocks st prev p =
      let (st', r) = sample contour default_sampler st p.v (elapsed prev p.now) in
      if p.abort
      then leave st (request_stop ∷ []) false
      else if p.alarm
      then leave st (request_stop ∷ []) false
      else if is_faulted p.es
      then leave st (synchronize ∷ send_alarm abort_cycle ∷ []) false
      else if is_idle_state p.es
      then leave st (synchronize ∷ []) false
      else if not p.running
      then again st p.now []
      else emit_pass planner_blocks p st' r r.emit

  -- `for (;;)`, as far as the passes go: the sampler's state, the effects, and whether it returned
  unfoldable pub run_passes :
      ContourBuffer F
      → ℕ
      → SamplerState F
      → ℕ
      → List (Pass F)
      → SamplerState F × List (Effect F) × Finish
  run_passes contour blocks st prev [] = (st, [], going)
  run_passes contour blocks st prev (p ∷ ps) = elim (turn contour blocks st prev p) [
    | stuck ↦ (st, [], going)
    | leave st effects result ↦ (st, effects, returned result)
    | again st prev effects ↦
        let (last, more, finish) = run_passes contour blocks st prev ps in
        (last, effects ++ more, finish)
  ]

  unfoldable pub run_contour :
      ContourBuffer F → ℕ → ℕ → List (Pass F) → SamplerState F × List (Effect F) × Finish
  run_contour contour blocks start passes = run_passes contour blocks new_sampler start passes
