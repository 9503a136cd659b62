-- ===== src/Tests/Realtime.antt =====
-- Override characters on a concrete machine, with a `Percent` of 8 bits.
use fluid_edm.Base.{◌≡◌, refl, false, [], arith}
use fluid_edm.Base.Int.{pos, negsuc, ◌+ℤ◌}
use fluid_edm.Realtime.{
  cycle, disable, Machine, feed_override, execute_realtime_command, next_percent, add_percent,
}
use fluid_edm.Realtime.Bounds.{
  Reach, start, key, handle, run_event, reset_overrides, InRange, reach-InRange, kept,
  next_percent-kept,
}

abbrev machine : Machine
machine = record {
  state = cycle;
  hold_complete = false;
  f_override = 0;
  r_override = 0;
  spindle_speed_ovr = 0;
  update_spindle_speed = false;
  spindle_stop_ovr = record {
    enabled = false;
    initiate = false;
    restore = false;
    restore_cycle = false;
  };
  modal_spindle = disable;
  spindle_speed = 0;
  flood = false;
  mist = false;
  has_flood = false;
  has_mist = false;
  effects = [];
}

-- 0x92 takes 10% off the feed
slowed : Reach 8 (run_event 8 (reset_overrides machine) (feed_override (negsuc 9))) []
unfolding execute_realtime_command
slowed = handle (key 0x92 (start machine))

reach-InRange_example : InRange (run_event 8 (reset_overrides machine) (feed_override (negsuc 9)))
reach-InRange_example = reach-InRange 8 (omega arith) slowed

next_percent-kept_example : next_percent 8 195 (pos 10) ≡ kept (pos 195 +ℤ pos 10)
next_percent-kept_example =
    next_percent-kept 8 195 (pos 10) (omega arith) (omega arith, omega arith) (omega arith)
      (omega arith)

-- a step below the range by more than the range's lower end comes out at its upper end
next_percent_wraps : next_percent 8 10 (negsuc 19) ≡ 200
unfolding next_percent add_percent
next_percent_wraps = refl
