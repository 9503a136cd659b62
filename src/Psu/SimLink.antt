-- ===== src/Psu/SimLink.antt =====
-- EDM/Psu/SimPsuLink.h and SimPsuLink.cpp: the simulated power supply behind the same interface.
pub mod Ring
pub mod Window
use fluid_edm.Base.{
  ℕ, suc, ◌+◌, ◌-◌, ◌%◌, ◌^◌, Bool, true, false, Option, none, some, List, [], ◌∷◌, ltb, leb, ◌==◌,
  if◌then◌else◌, get_or, set, replicate,
}
use fluid_edm.Base.Int.{ℤ, pos, ◌-ℤ◌, ltb_ℤ, pattern16}
use fluid_edm.Base.Float.{Float, nought, one}
use fluid_edm.Psu.Messages.{SetModeBounds, no_bounds, StatsAgg, no_stats}
use fluid_edm.Psu.Link.{Event, info, IPsuLink}

pub record SimPsuLink (F : Type 0) : Type 0 where
  pub connected : Bool
  pub cutting : Bool
  pub gap_mm : F
  pub ideal_gap_mm : F
  pub coupling : F
  pub last_v_um_s : ℤ
  pub seq : ℕ
  pub window : ℕ
  pub stats : StatsAgg
  pub stats_valid : Bool
  pub mode : SetModeBounds
  -- the ring: an array of eight
  pub evts : List Event
  pub evt_head : ℕ
  pub evt_count : ℕ

abbrev pub evt_cap : ℕ
evt_cap = 8

-- what a slot holds before it is written; no queued position shows it
abbrev pub unset : Event
unset = info []

module _ {F : Type 0} where
  unfoldable pub push_sim_event : SimPsuLink F → Event → SimPsuLink F
  push_sim_event l e =
      let full = leb evt_cap l.evt_count in
      let head = if full then (l.evt_head + 1) % evt_cap else l.evt_head in
      let count = if full then l.evt_count - 1 else l.evt_count in
      record l {
        evts = set l.evts ((head + count) % evt_cap) e;
        evt_head = head;
        evt_count = count + 1;
      }

  unfoldable pub pop_sim_event : SimPsuLink F → Option (Event × SimPsuLink F)
  pop_sim_event l =
      if l.evt_count == 0
      then none
      else some (
        get_or l.evts l.evt_head unset,
        record l { evt_head = (l.evt_head + 1) % evt_cap; evt_count = l.evt_count - 1 },
      )

  unfoldable pub begin_sim : SimPsuLink F → SimPsuLink F
  begin_sim l = record l { connected = true }

  unfoldable pub set_sim_bounds : SimPsuLink F → SetModeBounds → SimPsuLink F × ℕ
  set_sim_bounds l m = let n = (l.seq + 1) % 2 ^ 16 in (record l { mode = m; seq = n }, n)

  unfoldable pub start_sim_cut : SimPsuLink F → SimPsuLink F
  start_sim_cut l = record l { cutting = true }

  unfoldable pub stop_sim_cut : SimPsuLink F → SimPsuLink F
  stop_sim_cut l = record l { cutting = false }

  unfoldable pub latest_sim_stats : SimPsuLink F → Option StatsAgg
  latest_sim_stats l = if l.stats_valid then some l.stats else none

  abbrev pub apply_commanded_velocity : SimPsuLink F → ℤ → SimPsuLink F
  apply_commanded_velocity l v = record l { last_v_um_s = v }

instance abbrev pub sim_psu_link : {F : Type 0} → IPsuLink (SimPsuLink F)
sim_psu_link = record {
  set_mode_bounds = set_sim_bounds;
  start_cut = start_sim_cut;
  stop_cut = stop_sim_cut;
  clear_fault = λ l. l;
  latest_stats = latest_sim_stats;
  pop_event = pop_sim_event;
  is_connected = λ l. l.connected;
  protocol_compatible = λ l. l.connected;
  last_ack_status = λ l. 0;
}

module _ {F : Type 0} ⦃f : Float F⦄ where
  open f use {dec, of_int, add, sub, mul, div, lt, le, trunc}

  abbrev pub new_sim : SimPsuLink F
  new_sim = record {
    connected = false;
    cutting = false;
    gap_mm = dec 2 2;
    ideal_gap_mm = dec 2 2;
    coupling = nought;
    last_v_um_s = pos 0;
    seq = 0;
    window = 0;
    stats = no_stats;
    stats_valid = false;
    mode = no_bounds;
    evts = replicate evt_cap unset;
    evt_head = 0;
    evt_count = 0;
  }

  unfoldable pub set_gap : SimPsuLink F → F → SimPsuLink F
  set_gap l mm = record l { gap_mm = if lt mm nought then nought else mm }

  abbrev pub set_velocity_coupling : SimPsuLink F → F → SimPsuLink F
  set_velocity_coupling l k = record l { coupling = k }

  abbrev pub lerp : F → F → F → F
  lerp a b t = add a (mul (sub b a) t)

  -- the gap after the motion of one tick, and its ratio `r` to the ideal gap
  unfoldable pub moved_gap : SimPsuLink F → F
  moved_gap l =
      let gap = sub l.gap_mm (mul l.coupling (of_int l.last_v_um_s)) in
      if lt gap nought then nought else gap

  unfoldable pub gap_ratio : SimPsuLink F → F
  gap_ratio l = if lt nought l.ideal_gap_mm then div (moved_gap l) l.ideal_gap_mm else nought

  -- a share of the pulses between its values at a short, an ideal and an open gap, times 100, rounded
  abbrev pub share_count : F → F → F → F → ℤ
  share_count short ideal opened r =
      let t = div (sub r one) (dec 3 0) in
      let share =
        if le r one then lerp short ideal r else lerp ideal opened (if lt one t then one else t) in
      trunc (add (mul share (dec 100 0)) (dec 5 1))

  -- `n_short`, `n_arc` and `n_open`
  unfoldable pub short_count : F → ℤ
  short_count r = share_count (dec 90 2) (dec 6 2) (dec 0 2) r

  unfoldable pub arc_count : F → ℤ
  arc_count r = share_count (dec 5 2) (dec 8 2) (dec 1 2) r

  unfoldable pub open_count : F → ℤ
  open_count r = share_count (dec 0 2) (dec 6 2) (dec 97 2) r

  unfoldable pub tick_sim : SimPsuLink F → SimPsuLink F
  tick_sim l =
      let r = gap_ratio l in
      let left = ((pos 100 -ℤ short_count r) -ℤ arc_count r) -ℤ open_count r in
      let delay = add (dec 2000 0) (mul (dec 8000 0) (if lt (dec 3 0) r then dec 3 0 else r)) in
      record l {
        gap_mm = moved_gap l;
        window = (l.window + 1) % 2 ^ 32;
        stats = record no_stats {
          window_id = l.window;
          n_normal = pattern16 (if ltb_ℤ left (pos 0) then pos 0 else left);
          n_arc = pattern16 (arc_count r);
          n_short = pattern16 (short_count r);
          n_open = pattern16 (open_count r);
          ignition_delay_mean_ns = pattern16 (trunc delay);
          ignition_delay_stddev_ns = 200;
          state = if l.cutting then 0 else 1;
          mode_id_active = l.mode.mode_id;
          dc_link_v_dv = 800;
        };
        stats_valid = true;
      }
