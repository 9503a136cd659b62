-- ===== src/Commands/Tension.antt =====
-- EDM/EdmCommands.cpp: the `$EDM/Tension` and `$EDM/ResetWireFeed` commands, for a wire feed that may
-- be missing. `strtof` of the C library is a parameter: none if it reads nothing. Log lines are left out.
use fluid_edm.Base.{
  ℕ, ◌≡◌, ◌<◌, refl, true, false, Option, none, some, List, if◌then◌else◌, leb, arith,
}
use fluid_edm.Base.Float.{Float, nought}
use fluid_edm.Text.Strings.{is_empty}
use fluid_edm.Control.Report.{EdmReport}
use fluid_edm.Feed.TensionController.{step_tension, watch_collapse, tension_reset}
use fluid_edm.Feed.StepGen.{set_rate}
use fluid_edm.Feed.WireFeed.{
  WireFeed, CellLines, live_state, is_cutting, is_fresh, tick_feed, tension_input, reset_collapse,
  sample_cell,
}
use fluid_edm.Commands.{Error, ok, invalid_statement, invalid_value}

module _ {F : Type 0} ⦃f : Float F⦄ where
  abbrev pub set_tension_setpoint : WireFeed F → F → WireFeed F
  set_tension_setpoint w n = record w { controller = record (w.controller) { setpoint_n = n } }

  abbrev pub tension_with : WireFeed F → Option F → Option (WireFeed F) × Error
  tension_with w none = (some w, invalid_value)
  tension_with w (some n) =
      if f.lt n nought then (some w, invalid_value) else (some (set_tension_setpoint w n), ok)

  unfoldable pub edm_tension :
      (List ℕ → Option F) → Option (WireFeed F) → List ℕ → Option (WireFeed F) × Error
  edm_tension strtof none value = (none, invalid_statement)
  edm_tension strtof (some w) value =
      if is_empty value then (some w, ok) else tension_with w (strtof value)

  unfoldable pub edm_reset_wirefeed : Option (WireFeed F) → Option (WireFeed F) × Error
  edm_reset_wirefeed none = (none, invalid_statement)
  edm_reset_wirefeed (some w) = (some (reset_collapse w), ok)

  -- After `$EDM/ResetWireFeed`, whatever was on record, a tick in a cut with a severity below 3 and no
  -- fresh sample of the load cell turns the feed motor on.
  pub edm_reset_wirefeed-enables :
      (w : WireFeed F) (report : Option EdmReport) (lines : CellLines) (now_ms : ℕ)
      → let (cap, sev, st) = live_state report in
        is_cutting st ≡ true
        → sev < 3
        → is_fresh (w.hx711) lines ≡ false
        → (let cleared = reset_collapse w in
            (edm_reset_wirefeed (some w) ≡ (some cleared, ok))
            × ((tick_feed cleared report lines now_ms).feed_gen.disable_pin ≡ false))
  unfolding edm_reset_wirefeed tick_feed step_tension watch_collapse set_rate tension_input
  edm_reset_wirefeed-enables w report lines now_ms cut mild stale =
      let cleared = reset_collapse w in
      let inp =
        tension_input (sample_cell cleared w.hx711 lines) (is_fresh w.hx711 lines)
          (live_state report) now_ms in
      let intact : (watch_collapse w.controller tension_reset inp).collapse_latched ≡ false =
        ground (arith, stale) in
      let weak : leb 3 (live_state report).1 ≡ false = ground (arith, mild) in
      (refl, ground (arith, weak, intact, cut))
