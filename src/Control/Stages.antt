-- ===== src/Control/Stages.antt =====
-- `EdmController::tick`, first part: what the tick reads from the links, and the checks of health.
use fluid_edm.Base.{
  Bool, true, false, Option, none, some, ltb, leb, ◌==◌, ◌&&◌, ◌||◌, not, if◌then◌else◌, bit_or,
}
use fluid_edm.Base.Float.{Float, one}
use fluid_edm.Psu.Messages.{StatsAgg, no_stats}
use fluid_edm.Psu.Link.{IPsuLink}
use fluid_edm.Diel.Messages.{DielStats, no_diel_stats, IDielLink}
use fluid_edm.Servo.GapServo.{servo_reset}
use fluid_edm.Servo.ModeTable.{mode_for_sword}
use fluid_edm.Control.Report.{
  EdmState, idle, armed, touch_off, cutting, hold_state, break_relief_state, stall_fault, fault,
  psu_fault, protocol_mismatch, heartbeat_lost, dielectric_lost, dielectric_not_ready, ack_timeout,
}
use fluid_edm.Control.State.{
  EdmController, DielInterlock, sub32, is_eroding, enter_fault, maybe_send_mode_bounds,
}

-- the local variables of `tick`: `got`, `s`, `fresh` and so on
pub record Readings : Type 0 where
  pub connected : Bool
  pub proto : Bool
  pub got : Bool
  pub stats : StatsAgg
  pub fresh : Bool
  pub stale_hold : Bool
  pub stale_fault : Bool
  pub diel_present : Bool
  pub diel_got : Bool
  pub diel_stats : DielStats
  pub diel_req : Bool
  pub diel_ok : Bool

unfoldable pub diel_ready_to_cut : DielInterlock → DielStats → Bool
diel_ready_to_cut cfg s = leb cfg.flow_min_clpm s.flow_clpm && leb cfg.level_min_pct s.level_pct

abbrev pub is_some {ℓ} : {A : Type ℓ} → Option A → Bool
is_some none = false
is_some (some a) = true

abbrev pub get_default {ℓ} : {A : Type ℓ} → A → Option A → A
get_default d none = d
get_default d (some a) = a

-- `_state != Fault && _state != StallFault && _state != Idle`
abbrev pub is_active : EdmState → Bool
is_active idle = false
is_active fault = false
is_active stall_fault = false
is_active _ = true

abbrev pub is_armed : EdmState → Bool
is_armed armed = true
is_armed _ = false

abbrev pub is_relieving : EdmState → Bool
is_relieving break_relief_state = true
is_relieving _ = false

-- `TouchOff || Cutting || Hold`, where a cleared warning restores the mode
abbrev pub is_cut_phase : EdmState → Bool
is_cut_phase touch_off = true
is_cut_phase cutting = true
is_cut_phase hold_state = true
is_cut_phase _ = false

module _ {D : Type 0} ⦃d : IDielLink D⦄ where
  -- `_diel && _diel->present()` and `_diel && _diel->latestStats(ds)`
  abbrev pub diel_present_of : Option D → Bool
  diel_present_of none = false
  diel_present_of (some x) = d.present x

  abbrev pub diel_stats_of : Option D → Option DielStats
  diel_stats_of none = none
  diel_stats_of (some x) = d.latest_stats x

module _ {F L D : Type 0} ⦃f : Float F⦄ ⦃k : IPsuLink L⦄ ⦃d : IDielLink D⦄ where
  abbrev pub is_fresh : EdmController F L D → Option StatsAgg → Bool
  is_fresh c none = false
  is_fresh c (some s) = not c.have_window || not (s.window_id == c.last_window_id)

  -- `_last_window_id = s.window_id; _have_window = true; _last_window_change_ms = now_ms`
  unfoldable pub note_window : EdmController F L D → EdmController F L D
  note_window c =
      let got = k.latest_stats c.link in
      if is_fresh c got
      then record c {
        last_window_id = (get_default no_stats got).window_id;
        have_window = true;
        last_window_change_ms = c.now;
      }
      else c

  -- All that the tick reads, after `drainEvents`. `stale_hold` and `stale_fault` see the window that
  -- this tick noted.
  unfoldable pub readings : EdmController F L D → Readings
  unfolding note_window diel_ready_to_cut
  readings c =
      let got = k.latest_stats c.link in
      let age = sub32 c.now (note_window c).last_window_change_ms in
      let dgot = diel_stats_of c.diel in
      let ds = get_default no_diel_stats dgot in
      let req = is_some c.diel && c.diel_cfg.required in
      record {
        connected = k.is_connected c.link;
        proto = k.protocol_compatible c.link;
        got = is_some got;
        stats = get_default no_stats got;
        fresh = is_fresh c got;
        stale_hold = ltb c.timers.tele_hold age;
        stale_fault = ltb c.timers.tele_fault age;
        diel_present = diel_present_of c.diel;
        diel_got = is_some dgot;
        diel_stats = ds;
        diel_req = req;
        diel_ok =
            not req || is_some dgot && (diel_present_of c.diel && diel_ready_to_cut c.diel_cfg ds);
      }

  unfoldable pub report_diel : Readings → EdmController F L D → EdmController F L D
  report_diel r c =
      let s = r.diel_stats in
      let p = record c.report { diel_present = r.diel_present } in
      let q = record p {
        diel_pump_on = s.pump_on;
        diel_flush_level = s.flush_level;
        diel_flush_mbar = s.flush_mbar;
        diel_flow_clpm = s.flow_clpm;
        diel_temp_dc = s.temp_dc;
        diel_temp_set_dc = s.temp_set_dc;
        diel_conductivity_us = s.conductivity_us;
        diel_level_pct = s.level_pct;
        diel_filter_pct = s.filter_pct;
        diel_flags =
            if ltb c.diel_cfg.conductivity_warn_us s.conductivity_us
            then bit_or s.flags 0x0008
            else s.flags;
      } in
      record c { report = if r.diel_got then q else p }

  -- telemetry, protocol and heartbeat
  unfoldable pub check_link : Readings → EdmController F L D → EdmController F L D
  unfolding enter_fault
  check_link r c =
      if is_active c.state
      then (if r.got && r.stats.state == 2
          then enter_fault c psu_fault
          else if not r.proto
          then enter_fault c protocol_mismatch
          else if not r.connected && r.stale_fault
          then enter_fault c heartbeat_lost
          else if c.have_window && r.stale_fault
          then enter_fault c heartbeat_lost
          else c)
      else c

  -- loss of the dielectric while eroding
  unfoldable pub check_diel : Readings → EdmController F L D → EdmController F L D
  unfolding enter_fault diel_ready_to_cut
  check_diel r c =
      if r.diel_req && is_eroding c.state
      then (if not r.diel_present || not (r.diel_got && diel_ready_to_cut c.diel_cfg r.diel_stats)
          then enter_fault c dielectric_lost
          else c)
      else c

  unfoldable pub run_armed : Readings → EdmController F L D → EdmController F L D
  unfolding enter_fault
  run_armed r c =
      if is_armed c.state
      then (if not r.proto
          then enter_fault c protocol_mismatch
          else if c.arm_fresh
          then record c { arm_fresh = false }
          else if r.connected && (k.last_ack_status c.link == 0 && r.diel_ok)
          then record c {
            link = k.start_cut c.link;
            servo_state = servo_reset;
            state = touch_off;
            touchoff_start = c.now;
            touchoff_contig = 0;
          }
          else if leb c.arm_deadline c.now
          then enter_fault c
              (if r.diel_req && not r.diel_ok then dielectric_not_ready else ack_timeout)
          else c)
      else c

  unfoldable pub end_relief : EdmController F L D → EdmController F L D
  end_relief c =
      if is_relieving c.state && leb c.break_relief_until c.now
      then record c { state = touch_off; touchoff_start = c.now; touchoff_contig = 0 }
      else c

  unfoldable pub clear_severity : EdmController F L D → EdmController F L D
  clear_severity c =
      let cleared = record c { wire_break_sev = 0; feed_cap_mult = one } in
      if ltb 0 c.wire_break_sev && leb c.sev_clear_after c.now
      then (if is_cut_phase c.state
          then maybe_send_mode_bounds (record cleared { mode = mode_for_sword c.modes c.s_word })
          else cleared)
      else c
