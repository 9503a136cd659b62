-- ===== src/Control/Faults.antt =====
-- How the checks of a tick enter the state Fault, and what the tick shows then.
pub mod Unlatch
use fluid_edm.Base.{
  ℕ, zero, suc, ◌+◌, ◌^◌, ◌≡◌, ◌≢◌, ◌≤◌, ◌<◌, ◌⊎◌, inl, inr, refl, Bool, true, false, Option, none,
  some, arith, Bool-cases, ◌&&◌, ◌||◌, not, if◌then◌else◌, leb, ltb, ◌==◌, sym, ap, ◌∙◌,
}
use fluid_edm.Base.Int.{ℤ, pos}
use fluid_edm.Base.Float.{Float}
use fluid_edm.Psu.Messages.{WireBreakImminent}
use fluid_edm.Psu.Link.{IPsuLink, wire_break}
use fluid_edm.Diel.Messages.{DielStats, no_diel_stats, IDielLink}
use fluid_edm.Servo.GapServo.{GapServoOutput}
use fluid_edm.Control.Report.{
  EdmState, armed, fault, break_relief_state, FaultReason, state_code, state_of, dielectric_lost,
}
use fluid_edm.Control.State.{
  EdmController, DielInterlock, is_eroding, maybe_send_mode_bounds, sub32, add32,
}
use fluid_edm.Control.Events.{on_wire_break, drain_step, drain}
use fluid_edm.Control.Stages.{
  Readings, readings, note_window, report_diel, check_link, check_diel, run_armed, end_relief,
  clear_severity, is_armed, is_active, is_fresh, is_relieving, is_some, get_default,
  diel_present_of, diel_stats_of, diel_ready_to_cut,
}
use fluid_edm.Control.Tick.{
  drained, prepare, run_servo, apply_servo, write_report, report_servo, tick,
}

-- The module is missing, silent, or short of flow or level.
abbrev pub CoolantLost : {D : Type 0} ⦃d : IDielLink D⦄ → DielInterlock → D → Type 0
CoolantLost ⦃d⦄ cfg x =
    (d.present x ≡ false)
    ⊎ (d.latest_stats x ≡ none)
    ⊎ ((s : DielStats) × (d.latest_stats x ≡ some s)
        × ((s.flow_clpm < cfg.flow_min_clpm) ⊎ (s.level_pct < cfg.level_min_pct)))

module _ {F L D : Type 0} ⦃f : Float F⦄ ⦃k : IPsuLink L⦄ ⦃d : IDielLink D⦄ where
  send_state :
      (c : EdmController F L D)
      → ((maybe_send_mode_bounds c).state ≡ c.state)
        × ((maybe_send_mode_bounds c).reason ≡ c.reason)
  unfolding maybe_send_mode_bounds
  send_state c = ground arith

  pub clear_severity-state :
      (c : EdmController F L D)
      → ((clear_severity c).state ≡ c.state) × ((clear_severity c).reason ≡ c.reason)
  unfolding clear_severity
  clear_severity-state c = grind (arith, send_state)

  armed_relief-fault :
      (r : Readings) (c : EdmController F L D)
      → c.state ≡ fault
      → (end_relief (run_armed r c)).state ≡ fault
  unfolding end_relief run_armed
  armed_relief-fault r c h = ground arith

  -- the stages of `prepare` up to the dielectric check
  abbrev pub checked : Readings → EdmController F L D → EdmController F L D
  checked r c = check_diel r (check_link r (report_diel r (note_window c)))

  -- what a tick shows of a controller that its checks put into Fault
  abbrev pub IsStopped : EdmController F L D → Type 0
  IsStopped c =
      (c.state ≡ fault)
      × (c.report.controller_state ≡ state_code fault)
      × (c.report.v_cmd_um_s ≡ pos 0)

  apply_servo-fault :
      (r : Readings) (c : EdmController F L D)
      → c.state ≡ fault
      → IsStopped (write_report r (run_servo r c).0 (run_servo r c).1)
  unfolding run_servo apply_servo write_report
  apply_servo-fault r c h = ground arith

  prepare-fault :
      (r : Readings) (c : EdmController F L D)
      → (checked r c).state ≡ fault
      → (prepare r c).state ≡ fault
  unfolding prepare
  prepare-fault r c h =
      (clear_severity-state (end_relief (run_armed r (checked r c)))).0
      ∙ armed_relief-fault r (checked r c) h

  tick-fault :
      (c : EdmController F L D) (now_ms : ℕ)
      → (checked (readings (drained c now_ms)) (drained c now_ms)).state ≡ fault
      → IsStopped (tick c now_ms)
  unfolding tick
  tick-fault c now_ms h =
      let c1 = drained c now_ms in
      apply_servo-fault (readings c1) (prepare (readings c1) c1) (prepare-fault (readings c1) c1 h)

  lost_reading :
      (c : EdmController F L D) (x : D)
      → c.diel ≡ some x
      → c.diel_cfg.required ≡ true
      → CoolantLost c.diel_cfg x
      → ((readings c).diel_req ≡ true)
        × (not (readings c).diel_present
              || not ((readings c).diel_got && diel_ready_to_cut c.diel_cfg (readings c).diel_stats)
            ≡ true)
  unfolding readings diel_ready_to_cut
  lost_reading c x e q h = ground arith

  eroding_checked :
      (r : Readings) (c : EdmController F L D)
      → is_eroding c.state ≡ true
      → r.diel_req ≡ true
      → not r.diel_present || not (r.diel_got && diel_ready_to_cut c.diel_cfg r.diel_stats) ≡ true
      → (checked r c).state ≡ fault
  unfolding check_diel check_link report_diel note_window
  eroding_checked r c e q h = ground arith

  -- If, once the queued events were handled, the controller erodes (Cutting, Hold or BreakRelief),
  -- requires the dielectric and has lost it, the tick ends in Fault, and its snapshot shows Fault and
  -- a commanded velocity of zero.
  pub dielectric_loss_stops :
      (c : EdmController F L D) (now_ms : ℕ) (x : D)
      → let c1 = drained c now_ms in
        is_eroding c1.state ≡ true
        → c1.diel ≡ some x
        → c1.diel_cfg.required ≡ true
        → CoolantLost c1.diel_cfg x
        → IsStopped (tick c now_ms)
  dielectric_loss_stops c now_ms x e a q h =
      let c1 = drained c now_ms in
      let (req, bad) = lost_reading c1 x a q h in
      tick-fault c now_ms (eroding_checked (readings c1) c1 e req bad)

  silent_checked :
      (c : EdmController F L D)
      → is_active c.state ≡ true
      → c.have_window ≡ true
      → is_fresh c (k.latest_stats c.link) ≡ false
      → c.timers.tele_fault < sub32 c.now c.last_window_change_ms
      → (checked (readings c) c).state ≡ fault
  unfolding check_diel check_link report_diel readings note_window
  silent_checked c e w q h = ground arith

  -- If, once the queued events were handled, the controller is active, has seen telemetry before, and
  -- gets no new window for longer than the fault time, the tick ends in Fault, and its snapshot shows
  -- Fault and a commanded velocity of zero.
  pub silence_stops :
      (c : EdmController F L D) (now_ms : ℕ)
      → let c1 = drained c now_ms in
        is_active c1.state ≡ true
        → c1.have_window ≡ true
        → is_fresh c1 (k.latest_stats c1.link) ≡ false
        → c1.timers.tele_fault < sub32 c1.now c1.last_window_change_ms
        → IsStopped (tick c now_ms)
  silence_stops c now_ms e w q h = tick-fault c now_ms (silent_checked (drained c now_ms) e w q h)
