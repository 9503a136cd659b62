-- ===== src/Feed/WireFeed/Stop.antt =====
-- When the wire feed stands still with its motor off.
use fluid_edm.Base.{
  ℕ, ◌≡◌, ◌≤◌, ◌<◌, ◌⊎◌, inl, inr, refl, Bool, true, false, ◌||◌, leb, Option, List, [], ◌∷◌, arith,
}
use fluid_edm.Base.Int.{ℤ, pos}
use fluid_edm.Base.Float.{Float, nought}
use fluid_edm.Control.Report.{EdmReport}
use fluid_edm.Feed.TensionController.{
  TensionInput, TensionState, TensionConfig, step_tension, watch_collapse,
}
use fluid_edm.Feed.TensionController.Collapse.{watch-latched}
use fluid_edm.Feed.StepGen.{StepGen, set_rate}
use fluid_edm.Feed.WireFeed.{
  WireFeed, CellLines, live_state, is_cutting, sample_cell, tension_input, drive_feed, tick_feed,
  is_fresh,
}

-- what a tick of the task sees
pub record FeedTick : Type 0 where
  pub report : Option EdmReport
  pub lines : CellLines
  pub now_ms : ℕ

-- the motor off, and no pulses
abbrev pub IsStopped : StepGen → Type 0
IsStopped g = (g.disable_pin ≡ true) × (g.half_period_ticks ≡ 0)

drive_feed-IsStopped :
    (g : StepGen) (rate : ℤ) (sev : ℕ) (collapse cut : Bool)
    → rate ≡ pos 0
    → (leb 3 sev || collapse) ≡ true
    → IsStopped (drive_feed (set_rate g rate) sev collapse cut)
unfolding set_rate
drive_feed-IsStopped g rate sev collapse cut parked stop = rw (parked, stop) (refl, refl)

-- What turns the motor on.
drive_feed-enabled :
    (g : StepGen) (sev : ℕ) (collapse cut : Bool)
    → g.disable_pin ≡ true
    → (drive_feed g sev collapse cut).disable_pin ≡ false
    → (cut ≡ true) × (sev < 3) × (collapse ≡ false)
drive_feed-enabled g sev collapse cut off on = ground arith

module _ {F : Type 0} ⦃f : Float F⦄ where
  unfoldable pub ticks_feed : WireFeed F → List FeedTick → WireFeed F
  ticks_feed w [] = w
  ticks_feed w (t ∷ ts) = ticks_feed (tick_feed w t.report t.lines t.now_ms) ts

  -- the input of the tension controller at a tick
  abbrev input_of : WireFeed F → FeedTick → TensionInput F
  input_of w t =
      tension_input (sample_cell w w.hx711 t.lines) (is_fresh w.hx711 t.lines) (live_state t.report)
        t.now_ms

  stopped_output :
      (c : TensionConfig F) (s : TensionState F) (inp : TensionInput F)
      → f.lround nought ≡ pos 0
      → (s.collapse_latched ≡ true) ⊎ (3 ≤ inp.severity)
      → (step_tension c s inp).feed_steps_per_s ≡ pos 0
  unfolding step_tension watch_collapse
  stopped_output c s inp round (inl latched) = ground (arith, round, watch-latched c s inp latched)
  stopped_output c s inp round (inr severe) = ground (arith, round)

  latched_collapse :
      (c : TensionConfig F) (s : TensionState F) (inp : TensionInput F)
      → s.collapse_latched ≡ true
      → (step_tension c s inp).tension_collapse ≡ true
  unfolding step_tension
  latched_collapse c s inp h = unfold step_tension in watch-latched c s inp h

  -- A tick that finds a collapse on record, or a wire break of severity 3 or more reported, turns the
  -- feed motor off and stops its pulses, if zero rounds to zero.
  pub tick_feed-IsStopped :
      (w : WireFeed F) (t : FeedTick)
      → f.lround nought ≡ pos 0
      → (w.state.collapse_latched ≡ true) ⊎ (3 ≤ (live_state t.report).1)
      → IsStopped (tick_feed w t.report t.lines t.now_ms).feed_gen
  unfolding tick_feed set_rate tension_input
  tick_feed-IsStopped w t round cause =
      let inp = input_of w t in
      let o = step_tension w.controller w.state inp in
      let stop : (leb 3 (live_state t.report).1 || o.tension_collapse) ≡ true = elim cause [
        | inl latched ↦ ground (arith, latched_collapse w.controller w.state inp latched)
        | inr severe ↦ ground (arith, severe)
      ] in
      drive_feed-IsStopped w.feed_gen o.feed_steps_per_s (live_state t.report).1 o.tension_collapse
        (is_cutting (live_state t.report).2) (stopped_output w.controller w.state inp round cause)
        stop

  tick_feed-latched :
      (w : WireFeed F) (t : FeedTick)
      → w.state.collapse_latched ≡ true
      → (tick_feed w t.report t.lines t.now_ms).state.collapse_latched ≡ true
  unfolding tick_feed
  tick_feed-latched w t latched = watch-latched w.controller w.state (input_of w t) latched

  -- Once a collapse is on record, the feed motor is off and without pulses after every later tick,
  -- whatever the ticks see, if zero rounds to zero.
  pub ticks_feed-IsStopped :
      (w : WireFeed F) (ts : List FeedTick) (t : FeedTick)
      → f.lround nought ≡ pos 0
      → w.state.collapse_latched ≡ true
      → IsStopped (tick_feed (ticks_feed w ts) t.report t.lines t.now_ms).feed_gen
  unfolding ticks_feed
  ticks_feed-IsStopped w [] t round latched = tick_feed-IsStopped w t round (inl latched)
  ticks_feed-IsStopped w (u ∷ ts) t round latched =
      ticks_feed-IsStopped (tick_feed w u.report u.lines u.now_ms) ts t round
        (tick_feed-latched w u latched)

  -- A tick turns the feed motor on only if the controller reports a state of a cut and a severity below
  -- 3, and no collapse is on record afterwards.
  pub tick_feed-enabled :
      (w : WireFeed F) (t : FeedTick)
      → w.feed_gen.disable_pin ≡ true
      → let next = tick_feed w t.report t.lines t.now_ms in
        let (cap, sev, st) = live_state t.report in
        next.feed_gen.disable_pin ≡ false
        → (is_cutting st ≡ true) × (sev < 3) × (next.state.collapse_latched ≡ false)
  unfolding tick_feed set_rate step_tension
  tick_feed-enabled w t off on =
      let o = step_tension w.controller w.state (input_of w t) in
      drive_feed-enabled (set_rate w.feed_gen o.feed_steps_per_s) (live_state t.report).1
        o.tension_collapse (is_cutting (live_state t.report).2) off on
