-- ===== src/Psu/SimLink/Window.antt =====
-- The telemetry windows of the simulated supply.
use fluid_edm.Base.{ℕ, ◌+◌, ◌^◌, ◌≡◌, ◌≢◌, ◌≤◌, ◌<◌, refl, false, some, arith, if◌then◌else◌}
use fluid_edm.Base.Int.{pos, ◌-ℤ◌, ltb_ℤ, pattern16}
use fluid_edm.Base.Float.{Float, IsFloat, nought}
use fluid_edm.Psu.SimLink.{
  SimPsuLink, tick_sim, latest_sim_stats, short_count, arc_count, open_count, gap_ratio, moved_gap,
}

remaining_total :
    (s a o : ℕ)
    → s ≤ 100
    → a ≤ 100
    → o ≤ 100
    → let left = ((pos 100 -ℤ pos s) -ℤ pos a) -ℤ pos o in
      100
      ≤ pattern16 (if ltb_ℤ left (pos 0) then pos 0 else left)
        + pattern16 (pos a)
        + pattern16 (pos s)
        + pattern16 (pos o)
unfolding ◌-ℤ◌
remaining_total s a o p q r = ground arith

module _ {F : Type 0} ⦃f : Float F⦄ where
  -- A tick publishes a window with the id that the window counter had, so that two ticks in a row
  -- never show the same id while the counter is a 32-bit number, and if the rounded counts of shorts,
  -- arcs and opens lie between 0 and 100, the window holds at least 100 pulses.
  pub tick_sim-window :
      (l : SimPsuLink F) (s a o : ℕ)
      → l.window < 2 ^ 32
      → short_count (gap_ratio l) ≡ pos s
      → arc_count (gap_ratio l) ≡ pos a
      → open_count (gap_ratio l) ≡ pos o
      → s ≤ 100
      → a ≤ 100
      → o ≤ 100
      → let w = (tick_sim l).stats in
        (latest_sim_stats (tick_sim l) ≡ some w)
        × (w.window_id ≡ l.window)
        × ((tick_sim (tick_sim l)).stats.window_id ≢ w.window_id)
        × (100 ≤ w.n_normal + w.n_arc + w.n_short + w.n_open)
  unfolding tick_sim latest_sim_stats
  tick_sim-window l s a o small es ea eo p q r =
      (refl, refl, (λ e. omega (arith, small, e)), rw (es, ea, eo) (remaining_total s a o p q r))

  -- The simulated gap never becomes negative, whatever the commanded velocity and the coupling.
  pub tick_sim-gap : (laws : IsFloat F) (l : SimPsuLink F) → f.lt (tick_sim l).gap_mm nought ≡ false
  unfolding tick_sim moved_gap
  tick_sim-gap laws l = ground (arith, laws.lt_irrefl nought)
