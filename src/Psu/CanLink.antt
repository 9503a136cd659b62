-- ===== src/Psu/CanLink.antt =====
-- EDM/Psu/PsuLink.h and PsuLink.cpp: the session layer over the CAN bus. The bus is the recording one
-- of EDM/Can/CanBus.h: `sent` lists the frames handed to it, oldest first. Each method runs under the
-- link's lock, so that the calls of the two tasks are a sequence.
pub mod Queue
pub mod Session
pub mod Power
use fluid_edm.Base.{
  ℕ, ◌+◌, ◌%◌, ◌^◌, Bool, true, false, Option, none, some, List, [], ◌∷◌, ◌++◌, leb, ◌==◌,
  if◌then◌else◌, length, drop,
}
use fluid_edm.Wire.Frame.{CanFrame}
use fluid_edm.Psu.Messages.{
  SetModeBounds, StatsAgg, PsuStatus, AckModeBounds, no_stats, id_ack_mode_bounds, id_stats_agg,
  id_wire_break, id_fault, id_arc_burst, id_info, id_psu_status, protocol_version_supported,
  ctl_start_cut, ctl_stop_cut, ctl_clear_fault,
}
use fluid_edm.Psu.Codec.{
  encode_set_mode_bounds, encode_control, decode_stats_agg, decode_ack_mode_bounds,
  decode_psu_status, decode_wire_break, decode_fault, decode_arc_burst, decode_info,
}
use fluid_edm.Psu.Link.{Event, wire_break, fault_evt, arc_burst_evt, info, IPsuLink}

-- FakeCanBus, `sent`
pub record CanBus : Type 0 where
  pub sent : List CanFrame

unfoldable pub send : CanBus → CanFrame → CanBus
send b f = record { sent = b.sent ++ (f ∷ []) }

pub record CanPsuLink : Type 0 where
  pub bus : CanBus
  pub seq : ℕ
  pub stats : StatsAgg
  pub stats_valid : Bool
  pub events : List Event
  pub heartbeat_seen : Bool
  pub protocol_ok : Bool
  pub ack_status : ℕ

abbrev pub max_events : ℕ
max_events = 32

-- `sizeof(e.info)`
abbrev pub info_size : ℕ
info_size = 61

unfoldable pub new_link : CanBus → CanPsuLink
new_link b = record {
  bus = b;
  seq = 1;
  stats = no_stats;
  stats_valid = false;
  events = [];
  heartbeat_seen = false;
  protocol_ok = false;
  ack_status = 0;
}

-- `_seq++; if (_seq == 0) _seq = 1;` on a uint16_t
unfoldable pub next_seq : ℕ → ℕ
next_seq s = let n = (s + 1) % 2 ^ 16 in if n == 0 then 1 else n

unfoldable pub set_mode_bounds : CanPsuLink → SetModeBounds → CanPsuLink × ℕ
set_mode_bounds l m_in =
    let m = record m_in { seq = l.seq } in
    (record l { bus = send l.bus (encode_set_mode_bounds m); seq = next_seq l.seq }, m.seq)

unfoldable pub start_cut : CanPsuLink → CanPsuLink
start_cut l = record l { bus = send l.bus (encode_control ctl_start_cut 0) }

unfoldable pub stop_cut : CanPsuLink → CanPsuLink
stop_cut l = record l { bus = send l.bus (encode_control ctl_stop_cut 0) }

unfoldable pub clear_fault : CanPsuLink → CanPsuLink
clear_fault l = record l { bus = send l.bus (encode_control ctl_clear_fault 0) }

unfoldable pub latest_stats : CanPsuLink → Option StatsAgg
latest_stats l = if l.stats_valid then some l.stats else none

-- `front` and `pop_front`
unfoldable pub pop_front {ℓ} : {A : Type ℓ} → List A → Option (A × List A)
pop_front [] = none
pop_front (e ∷ es) = some (e, es)

unfoldable pub pop_event : CanPsuLink → Option (Event × CanPsuLink)
pop_event l = elim (pop_front l.events) [
  | none ↦ none
  | some (e, es) ↦ some (e, record l { events = es })
]

unfoldable pub push_event {ℓ} : {A : Type ℓ} → List A → ℕ → A → List A
push_event q cap e = (if leb cap (length q) then drop 1 q else q) ++ (e ∷ [])

-- the event that a frame carries, for the four cases of the switch that queue one
unfoldable pub event_of : CanFrame → Option Event
event_of f =
    if f.id == id_wire_break
    then elim (decode_wire_break f) [ none ↦ none | some w ↦ some (wire_break w) ]
    else if f.id == id_fault
    then elim (decode_fault f) [ none ↦ none | some w ↦ some (fault_evt w) ]
    else if f.id == id_arc_burst
    then elim (decode_arc_burst f) [ none ↦ none | some w ↦ some (arc_burst_evt w) ]
    else if f.id == id_info
    then elim (decode_info f info_size) [ none ↦ none | some w ↦ some (info w) ]
    else none

abbrev pub take_stats : CanPsuLink → Option StatsAgg → CanPsuLink
take_stats l none = l
take_stats l (some s) = record l { stats = s; stats_valid = true }

abbrev pub take_ack : CanPsuLink → Option AckModeBounds → CanPsuLink
take_ack l none = l
take_ack l (some a) = record l { ack_status = a.status }

abbrev pub take_status : CanPsuLink → Option PsuStatus → CanPsuLink
take_status l none = l
take_status l (some st) = record l {
  heartbeat_seen = true;
  protocol_ok = st.protocol_version == protocol_version_supported;
}

abbrev pub take_event : CanPsuLink → Option Event → CanPsuLink
take_event l none = l
take_event l (some e) = record l { events = push_event l.events max_events e }

unfoldable pub on_frame : CanPsuLink → CanFrame → CanPsuLink
on_frame l f =
    if f.id == id_stats_agg
    then take_stats l (decode_stats_agg f)
    else if f.id == id_ack_mode_bounds
    then take_ack l (decode_ack_mode_bounds f)
    else if f.id == id_psu_status
    then take_status l (decode_psu_status f)
    else take_event l (event_of f)

instance abbrev pub can_psu_link : IPsuLink CanPsuLink
can_psu_link = record {
  set_mode_bounds = set_mode_bounds;
  start_cut = start_cut;
  stop_cut = stop_cut;
  clear_fault = clear_fault;
  latest_stats = latest_stats;
  pop_event = pop_event;
  is_connected = λ l. l.heartbeat_seen;
  protocol_compatible = λ l. l.protocol_ok;
  last_ack_status = λ l. l.ack_status;
}
