-- ===== src/Tests/Feed.antt =====
-- The tension controller on concrete inputs; `float` runs in whole millionths.
use fluid_edm.Base.{◌≡◌, refl, true, false, some, [], ◌∷◌}
use fluid_edm.Base.Int.{ℤ, pos, negsuc}
use fluid_edm.Base.Fixed.{micros}
use fluid_edm.Feed.TensionController.{
  TensionConfig, TensionInput, TensionState, default_tension, tension_reset, step_tension,
  watch_collapse,
}
use fluid_edm.Control.Report.{no_report}
use fluid_edm.Feed.StepGen.{StepGen, new_step_gen, set_rate, enable}
use fluid_edm.Feed.WireFeed.{WireFeed, CellLines, new_wire_feed, tick_feed, tension_input}
use fluid_edm.Feed.WireFeed.Stop.{FeedTick, IsStopped, ticks_feed, ticks_feed-IsStopped}

abbrev config : TensionConfig ℤ
config = default_tension

-- a broken wire in a cut
abbrev slack : TensionInput ℤ
slack = record {
  measured_n = pos 100_000;
  meas_valid = true;
  feed_cap_mult = pos 1_000_000;
  severity = 0;
  cutting = true;
  commanded_feed_mm_min = negsuc 999_999;
  dt_ms = 12;
}

abbrev broken : TensionState ℤ
broken = record tension_reset { collapse_latched = true }

-- a generator at 5000 steps per second
abbrev turning : StepGen
turning = record new_step_gen { half_period_ticks = 100 }

-- a wire feed with a collapse on record, and one that is ready
abbrev torn : WireFeed ℤ
torn = record new_wire_feed { state = broken }

abbrev ready : WireFeed ℤ
ready = record new_wire_feed { feed_gen = enable new_step_gen false }

abbrev quiet_lines : CellLines
quiet_lines = record { dout = true; dout_at = λ i. true }

-- a tick in a cut
abbrev cut_tick : FeedTick
cut_tick = record {
  report = some (record no_report { controller_state = 3 });
  lines = quiet_lines;
  now_ms = 12;
}

ticks_feed-IsStopped_example :
    IsStopped (tick_feed (ticks_feed torn (cut_tick ∷ [])) cut_tick.report quiet_lines 12).feed_gen
ticks_feed-IsStopped_example = ticks_feed-IsStopped torn (cut_tick ∷ []) cut_tick refl refl

ready_on : (tick_feed ready cut_tick.report quiet_lines 12).feed_gen.disable_pin ≡ false
unfolding tick_feed step_tension watch_collapse set_rate tension_input
ready_on = refl
