-- ===== src/Control/Faults/Unlatch.antt =====
-- How a tick leaves the state Fault without `clearFault`: `EdmController::drainEvents`, severity 3.
use fluid_edm.Base.{
  ℕ, ◌≡◌, ◌≤◌, ◌<◌, inl, inr, true, false, none, some, arith, Bool-cases, ◌&&◌, ◌==◌, ◌∙◌,
}
use fluid_edm.Base.Float.{Float}
use fluid_edm.Psu.Messages.{WireBreakImminent}
use fluid_edm.Psu.Link.{IPsuLink, wire_break}
use fluid_edm.Diel.Messages.{IDielLink}
use fluid_edm.Control.Report.{break_relief_state}
use fluid_edm.Control.State.{EdmController, maybe_send_mode_bounds, add32}
use fluid_edm.Control.Events.{on_wire_break, drain}
use fluid_edm.Control.Stages.{
  Readings, readings, note_window, report_diel, check_link, check_diel, run_armed, end_relief,
  is_active,
}
use fluid_edm.Control.Tick.{drained, prepare, run_servo, apply_servo, write_report, tick}
use fluid_edm.Control.Faults.{checked, clear_severity-state}

module _ {F L D : Type 0} ⦃f : Float F⦄ ⦃k : IPsuLink L⦄ ⦃d : IDielLink D⦄ where
  -- the controller after a wire-break warning that was alone in the queue
  abbrev pub warned : EdmController F L D → ℕ → L → WireBreakImminent → EdmController F L D
  warned c now_ms l w = on_wire_break (record c { link = l; now = now_ms }) w

  drained_alone :
      (c : EdmController F L D) (now_ms : ℕ) (l : L) (w : WireBreakImminent)
      → k.pop_event c.link ≡ some (wire_break w, l)
      → k.pop_event (warned c now_ms l w).link ≡ none
      → drained c now_ms ≡ warned c now_ms l w
  unfolding drained drain
  drained_alone c now_ms l w e n = rw e (rw n)

  warned_state :
      (c : EdmController F L D) (now_ms : ℕ) (l : L) (w : WireBreakImminent)
      → 3 ≤ w.severity
      → ((warned c now_ms l w).state ≡ break_relief_state)
        × ((warned c now_ms l w).break_relief_until ≡ add32 now_ms c.timers.break_relief)
        × ((warned c now_ms l w).now ≡ now_ms)
  unfolding on_wire_break maybe_send_mode_bounds
  warned_state c now_ms l w h = ground arith

  check_link_calm :
      (r : Readings) (c : EdmController F L D)
      → r.proto ≡ true
      → (r.got && r.stats.state == 2) ≡ false
      → r.stale_fault ≡ false
      → check_link r c ≡ c
  unfolding check_link
  check_link_calm r c a b e = elim (Bool-cases (is_active c.state)) [
    | inl busy ↦ elim (Bool-cases r.connected) [
      | inl on ↦ elim (Bool-cases c.have_window) [
        | inl seen ↦ simp (busy, a, b, e, on, seen)
        | inr new ↦ simp (busy, a, b, e, on, new)
      ]
      | inr off ↦ elim (Bool-cases c.have_window) [
        | inl seen ↦ simp (busy, a, b, e, off, seen)
        | inr new ↦ simp (busy, a, b, e, off, new)
      ]
    ]
    | inr quiet ↦ simp quiet
  ]

  check_diel_dry :
      (r : Readings) (c : EdmController F L D) → r.diel_req ≡ false → check_diel r c ≡ c
  unfolding check_diel
  check_diel_dry r c h = simp h

  relief_armed :
      (r : Readings) (c : EdmController F L D)
      → c.state ≡ break_relief_state
      → c.now < c.break_relief_until
      → (end_relief (run_armed r c)).state ≡ break_relief_state
  unfolding end_relief run_armed
  relief_armed r c s u = ground arith

  noted_state :
      (r : Readings) (c : EdmController F L D)
      → ((report_diel r (note_window c)).state ≡ c.state)
        × ((report_diel r (note_window c)).now ≡ c.now)
        × ((report_diel r (note_window c)).break_relief_until ≡ c.break_relief_until)
  unfolding report_diel note_window
  noted_state r c = ground arith

  relief_stays :
      (r : Readings) (c : EdmController F L D)
      → c.state ≡ break_relief_state
      → c.now < c.break_relief_until
      → r.proto ≡ true
      → (r.got && r.stats.state == 2) ≡ false
      → r.stale_fault ≡ false
      → r.diel_req ≡ false
      → (end_relief (run_armed r (checked r c))).state ≡ break_relief_state
  relief_stays r c s u a b e g =
      let seen = report_diel r (note_window c) in
      let (same, now_same, until_same) = noted_state r c in
      rw (check_link_calm r seen a b e, check_diel_dry r seen g)
        (relief_armed r seen (same ∙ s) (omega (arith, now_same, until_same)))

  run_servo-relief :
      (r : Readings) (c : EdmController F L D)
      → c.state ≡ break_relief_state
      → (run_servo r c).0.state ≡ break_relief_state
  unfolding run_servo apply_servo
  run_servo-relief r c h = ground arith

  -- A critical wire-break warning that is alone in the queue takes the controller to BreakRelief from
  -- every state, Fault and StallFault included, if the protocol matches, the supply reports no fault,
  -- telemetry is not stale, no dielectric is required, and the end of the relief lies in the future.
  pub critical_break_unlatches :
      (c : EdmController F L D) (now_ms : ℕ) (l : L) (w : WireBreakImminent)
      → k.pop_event c.link ≡ some (wire_break w, l)
      → k.pop_event (warned c now_ms l w).link ≡ none
      → 3 ≤ w.severity
      → now_ms < add32 now_ms c.timers.break_relief
      → let r = readings (warned c now_ms l w) in
        r.proto ≡ true
        → (r.got && r.stats.state == 2) ≡ false
        → r.stale_fault ≡ false
        → r.diel_req ≡ false
        → (tick c now_ms).state ≡ break_relief_state
  unfolding tick prepare write_report
  critical_break_unlatches c now_ms l w e n sev late proto calm fresh dry =
      let c1 = warned c now_ms l w in
      let (s, u, t) = warned_state c now_ms l w sev in
      let kept = relief_stays (readings c1) c1 s (omega arith) proto calm fresh dry in
      let prepared =
        (clear_severity-state
          (end_relief (run_armed (readings c1) (checked (readings c1) c1)))).0 in
      rw (drained_alone c now_ms l w e n) (run_servo-relief (readings c1) _ (prepared ∙ kept))
