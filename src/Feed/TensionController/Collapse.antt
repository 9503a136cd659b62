-- ===== src/Feed/TensionController/Collapse.antt =====
-- When the tension controller takes the wire for broken, and what it commands then.
use fluid_edm.Base.{
  ℕ, ◌+◌, ◌-◌, ◌^◌, ◌≡◌, ◌≤◌, ◌<◌, true, false, if◌then◌else◌, List, [], ◌∷◌, arith, min,
}
use fluid_edm.Base.Int.{ℤ, signed32, pattern32}
use fluid_edm.Base.Float.{Float, nought, clampf}
use fluid_edm.Feed.TensionController.{
  TensionConfig, TensionInput, TensionState, scale_of, is_loaded, watch_collapse, step_tension,
  steps_tension,
}

-- the time that the inputs cover, in milliseconds
abbrev pub time_of : {F : Type 0} → List (TensionInput F) → ℕ
time_of [] = 0
time_of (inp ∷ inps) = inp.dt_ms + time_of inps

module _ {F : Type 0} ⦃f : Float F⦄ (c : TensionConfig F) where
  -- A valid measurement in a cut that is below both thresholds of a collapse: `collapse_n`, and the
  -- fraction `collapse_frac` of the setpoint as the severity scales it.
  abbrev pub IsSlack : TensionInput F → Type 0
  IsSlack inp =
      (inp.cutting ≡ true)
      × (inp.meas_valid ≡ true)
      × (f.lt inp.measured_n c.collapse_n ≡ true)
      × (f.lt inp.measured_n (f.mul c.collapse_frac (f.mul c.setpoint_n (scale_of c inp))) ≡ true)

  pub watch-latched :
      (s : TensionState F) (inp : TensionInput F)
      → s.collapse_latched ≡ true
      → (step_tension c s inp).next.collapse_latched ≡ true
  unfolding step_tension watch_collapse
  watch-latched s inp h = ground arith

  steps-latched :
      (s : TensionState F) (inps : List (TensionInput F))
      → s.collapse_latched ≡ true
      → (steps_tension c s inps).collapse_latched ≡ true
  unfolding steps_tension
  steps-latched s [] h = h
  steps-latched s (inp ∷ inps) h =
      steps-latched (step_tension c s inp).next inps (watch-latched s inp h)

  -- the hold tension, in steps per second
  abbrev pub hold_rate : ℤ
  hold_rate =
      signed32
        (pattern32 (f.lround (clampf c.tension_hold_sps c.tension_min_sps c.tension_max_sps)))

  latched_output :
      (s : TensionState F) (inp : TensionInput F)
      → s.collapse_latched ≡ true
      → ((step_tension c s inp).tension_collapse ≡ true)
        × ((step_tension c s inp).feed_steps_per_s ≡ signed32 (pattern32 (f.lround nought)))
        × ((step_tension c s inp).tension_steps_per_s ≡ hold_rate)
  unfolding step_tension watch_collapse
  latched_output s inp h = ground arith

  -- Once a collapse is latched, whatever inputs follow, each later step reports the collapse, feeds no
  -- wire and commands the hold tension.
  pub collapse_stays :
      (s : TensionState F) (inps : List (TensionInput F)) (inp : TensionInput F)
      → s.collapse_latched ≡ true
      → let out = step_tension c (steps_tension c s inps) inp in
        (out.tension_collapse ≡ true)
        × (out.feed_steps_per_s ≡ signed32 (pattern32 (f.lround nought)))
        × (out.tension_steps_per_s ≡ hold_rate)
  collapse_stays s inps inp h = latched_output (steps_tension c s inps) inp (steps-latched s inps h)

  step-early :
      (s : TensionState F) (inp : TensionInput F)
      → s.collapse_latched ≡ false
      → s.collapse_accum_ms + inp.dt_ms < 2 ^ 32
      → s.collapse_accum_ms + inp.dt_ms < c.collapse_ms
      → let n = (step_tension c s inp).next in
        (n.collapse_latched ≡ false) × (n.collapse_accum_ms ≤ s.collapse_accum_ms + inp.dt_ms)
  unfolding step_tension watch_collapse
  step-early s inp off small short = ground arith

  -- No run latches a collapse before its inputs cover `collapse_ms` milliseconds, counted with the
  -- time accumulated before; `collapse_ms` is a 32-bit number.
  pub collapse_not_early :
      (s : TensionState F) (inps : List (TensionInput F))
      → s.collapse_latched ≡ false
      → c.collapse_ms < 2 ^ 32
      → s.collapse_accum_ms + time_of inps < c.collapse_ms
      → (steps_tension c s inps).collapse_latched ≡ false
  unfolding steps_tension
  collapse_not_early s [] off w short = off
  collapse_not_early s (inp ∷ inps) off w short =
      let (still, accum) = step-early s inp off (omega arith) (omega arith) in
      collapse_not_early (step_tension c s inp).next inps still w (omega arith)

  -- In a cut with a valid measurement the time since load restarts at 0 when the wire is loaded and
  -- else grows by the time of the input up to 2^32 - 1, where it stays instead of wrapping.
  pub since_loaded_saturates :
      (s : TensionState F) (inp : TensionInput F)
      → inp.cutting ≡ true
      → inp.meas_valid ≡ true
      → s.since_loaded_ms < 2 ^ 32
      → inp.dt_ms < 2 ^ 32
      → (step_tension c s inp).next.since_loaded_ms
        ≡ (if is_loaded c inp then 0 else min (s.since_loaded_ms + inp.dt_ms) (2 ^ 32 - 1))
  unfolding step_tension watch_collapse
  since_loaded_saturates s inp cut valid a b = ground arith
