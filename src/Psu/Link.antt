-- ===== src/Psu/Link.antt =====
-- EDM/Psu/IPsuLink.h: the events of the power supply, and the interface between the controller and
-- a link. A method that changes the link returns the new link.
use fluid_edm.Base.{ℕ, Bool, Option, List}
use fluid_edm.Psu.Messages.{SetModeBounds, StatsAgg, WireBreakImminent, Fault, ArcBurst}

-- `kind` with the union member that it selects
pub data Event : Type 0 where
  wire_break : WireBreakImminent → Event
  fault_evt : Fault → Event
  arc_burst_evt : ArcBurst → Event
  info : List ℕ → Event

pub record IPsuLink (L : Type 0) : Type 0 where
  pub set_mode_bounds : L → SetModeBounds → L × ℕ
  pub start_cut : L → L
  pub stop_cut : L → L
  pub clear_fault : L → L
  pub latest_stats : L → Option StatsAgg
  pub pop_event : L → Option (Event × L)
  pub is_connected : L → Bool
  pub protocol_compatible : L → Bool
  pub last_ack_status : L → ℕ
