-- ===== src/Control/Power/CanLink.antt =====
-- The CAN link fills the controller's interface to the cutting power.
use fluid_edm.Psu.Messages.{no_bounds}
use fluid_edm.Psu.CanLink.{CanPsuLink, can_psu_link}
use fluid_edm.Psu.CanLink.Power.{commanded, commanded_lem, commanded-pop_event}
use fluid_edm.Control.Power.{IsPowerLink}

abbrev pub can_power : IsPowerLink CanPsuLink
can_power = record {
  powered = commanded;
  start_on = λ l. (commanded_lem l no_bounds).0;
  stop_off = λ l. (commanded_lem l no_bounds).1;
  clear_same = λ l. (commanded_lem l no_bounds).2;
  bounds_same = λ l m. (commanded_lem l m).3;
  pop_same = commanded-pop_event;
}
