-- ===== src/Diel/CanLink.antt =====
-- EDM/Diel/CanDielLink.h and CanDielLink.cpp: the session layer for the dielectric module.
pub mod Session
use fluid_edm.Base.{
  ℕ, ◌+◌, ◌%◌, ◌^◌, Bool, true, false, Option, none, some, List, [], ◌∷◌, ◌++◌, leb, ◌==◌,
  if◌then◌else◌, length, drop,
}
use fluid_edm.Wire.Frame.{CanFrame}
use fluid_edm.Psu.CanLink.{CanBus, send, pop_front}
use fluid_edm.Diel.Messages.{
  SetDiel, AckDiel, DielStats, DielFault, DielStatus, IDielLink, no_diel_stats, id_ack_diel,
  id_diel_stats, id_diel_fault, id_diel_status, diel_protocol_version,
}
use fluid_edm.Diel.Codec.{
  encode_set_diel, decode_ack_diel, decode_diel_stats, decode_diel_fault, decode_diel_status,
}

pub record CanDielLink : Type 0 where
  pub bus : CanBus
  pub seq : ℕ
  pub stats : DielStats
  pub stats_valid : Bool
  pub events : List DielFault
  pub heartbeat_seen : Bool
  pub protocol_ok : Bool
  pub ack_status : ℕ

abbrev pub max_diel_events : ℕ
max_diel_events = 16

unfoldable pub new_diel_link : CanBus → CanDielLink
new_diel_link b = record {
  bus = b;
  seq = 1;
  stats = no_diel_stats;
  stats_valid = false;
  events = [];
  heartbeat_seen = false;
  protocol_ok = false;
  ack_status = 0;
}

unfoldable pub set_diel : CanDielLink → SetDiel → CanDielLink × ℕ
set_diel l m =
    let s = record m { seq = l.seq } in
    let n = (l.seq + 1) % 2 ^ 16 in
    (record l { bus = send l.bus (encode_set_diel s); seq = if n == 0 then 1 else n }, s.seq)

unfoldable pub latest_diel_stats : CanDielLink → Option DielStats
latest_diel_stats l = if l.stats_valid then some l.stats else none

unfoldable pub pop_diel_event : CanDielLink → Option (DielFault × CanDielLink)
pop_diel_event l = elim (pop_front l.events) [
  | none ↦ none
  | some (e, es) ↦ some (e, record l { events = es })
]

abbrev pub take_diel_stats : CanDielLink → Option DielStats → CanDielLink
take_diel_stats l none = l
take_diel_stats l (some s) = record l { stats = s; stats_valid = true }

abbrev pub take_diel_ack : CanDielLink → Option AckDiel → CanDielLink
take_diel_ack l none = l
take_diel_ack l (some a) = record l { ack_status = a.status }

abbrev pub take_diel_status : CanDielLink → Option DielStatus → CanDielLink
take_diel_status l none = l
take_diel_status l (some st) = record l {
  heartbeat_seen = true;
  protocol_ok = st.protocol_version == diel_protocol_version;
}

abbrev pub take_diel_fault : CanDielLink → Option DielFault → CanDielLink
take_diel_fault l none = l
take_diel_fault l (some e) = record l {
  events =
      (if leb max_diel_events (length l.events) then drop 1 l.events else l.events) ++ (e ∷ []);
}

unfoldable pub on_diel_frame : CanDielLink → CanFrame → CanDielLink
on_diel_frame l f =
    if f.id == id_diel_stats
    then take_diel_stats l (decode_diel_stats f)
    else if f.id == id_ack_diel
    then take_diel_ack l (decode_ack_diel f)
    else if f.id == id_diel_status
    then take_diel_status l (decode_diel_status f)
    else if f.id == id_diel_fault
    then take_diel_fault l (decode_diel_fault f)
    else l

instance abbrev pub can_diel_link : IDielLink CanDielLink
can_diel_link = record {
  set_diel = set_diel;
  latest_stats = latest_diel_stats;
  pop_event = pop_diel_event;
  is_connected = λ l. l.heartbeat_seen;
  protocol_compatible = λ l. l.protocol_ok;
  present = λ l. l.heartbeat_seen;
}
