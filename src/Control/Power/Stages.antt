-- ===== src/Control/Power/Stages.antt =====
-- What each stage of the controller does to the cutting power and to the quiet states.
use fluid_edm.Base.{
  ℕ, zero, suc, ◌+◌, ◌%◌, ◌^◌, ◌≡◌, inl, inr, refl, Option, none, some, arith, Bool-cases,
}
use fluid_edm.Base.Float.{Float}
use fluid_edm.Psu.Messages.{WireBreakImminent}
use fluid_edm.Psu.Link.{IPsuLink, Event, wire_break, fault_evt, arc_burst_evt, info}
use fluid_edm.Diel.Messages.{IDielLink}
use fluid_edm.Servo.GapServo.{GapServoInput, GapServoOutput}
use fluid_edm.Servo.ModeTable.{build}
use fluid_edm.Control.State.{EdmController, enter_fault, maybe_send_mode_bounds}
use fluid_edm.Control.Events.{on_wire_break, drain_step, drain}
use fluid_edm.Control.Stages.{
  Readings, check_link, check_diel, run_armed, end_relief, clear_severity,
}
use fluid_edm.Control.Tick.{
  run_touch_off, watch_gap, start_hold, watch_stall, apply_servo, servo_input, run_servo,
  is_touch_off, is_cutting_or_hold, is_break_relief,
}
use fluid_edm.Control.Power.{IsPowerLink, IsSafe, NoStart, NoStart-trans}

module _ {F L D : Type 0} ⦃f : Float F⦄ ⦃k : IPsuLink L⦄ (p : IsPowerLink L) where
  pub send_same :
      (c : EdmController F L D)
      → (p.powered (maybe_send_mode_bounds c).link ≡ p.powered c.link)
        × ((maybe_send_mode_bounds c).state ≡ c.state)
  unfolding maybe_send_mode_bounds
  send_same c = ground (
    arith,
    p.bounds_same c.link
        (record (build F c.modes c.mode c.s_word 0) { seq = (c.seq + 1) % 2 ^ 16 }),
  )

  -- The events: a warning or a fault never turns the power on.
  wire_break-NoStart :
      (c : EdmController F L D) (w : WireBreakImminent) → NoStart p c (on_wire_break c w)
  unfolding on_wire_break
  wire_break-NoStart c w = grind (arith, send_same)

  wire_break-IsSafe :
      (c : EdmController F L D) (w : WireBreakImminent) → IsSafe p c → IsSafe p (on_wire_break c w)
  unfolding on_wire_break
  wire_break-IsSafe c w h = grind (arith, send_same)

  drain_step-Keeps :
      (rest : EdmController F L D → EdmController F L D)
      → ((x : EdmController F L D) → IsSafe p x → IsSafe p (rest x) × NoStart p x (rest x))
      → (c : EdmController F L D) (o : Option (Event × L)) → k.pop_event c.link ≡ o
      → IsSafe p c
      → IsSafe p (drain_step rest c o) × NoStart p c (drain_step rest c o)
  unfolding enter_fault
  drain_step-Keeps rest ih c none e h = (h, inl refl)
  drain_step-Keeps rest ih c (some (fault_evt x, l)) e h =
      let off = p.stop_off l in (inr off, inr off)
  drain_step-Keeps rest ih c (some (wire_break w, l)) e h =
      let same = p.pop_same c.link (wire_break w) l e in
      let popped : EdmController F L D = record c { link = l } in
      let safe : IsSafe p popped = ground arith in
      let (kept, off) = ih (on_wire_break popped w) (wire_break-IsSafe popped w safe) in
      (kept, ground (arith, off, wire_break-NoStart popped w))
  drain_step-Keeps rest ih c (some (arc_burst_evt a, l)) e h =
      let same = p.pop_same c.link (arc_burst_evt a) l e in
      let popped : EdmController F L D = record c { link = l } in
      let safe : IsSafe p popped = ground arith in
      let (kept, off) = ih popped safe in (kept, ground (arith, off))
  drain_step-Keeps rest ih c (some (info t, l)) e h =
      let same = p.pop_same c.link (info t) l e in
      let popped : EdmController F L D = record c { link = l } in
      let safe : IsSafe p popped = ground arith in
      let (kept, off) = ih popped safe in (kept, ground (arith, off))

  pub drain-Keeps :
      (n : ℕ) (c : EdmController F L D)
      → IsSafe p c
      → IsSafe p (drain n c) × NoStart p c (drain n c)
  unfolding drain
  drain-Keeps zero c h = (h, inl refl)
  drain-Keeps (suc n) c h = drain_step-Keeps (drain n) (drain-Keeps n) c (k.pop_event c.link) refl h

module _ {F L D : Type 0} ⦃f : Float F⦄ ⦃k : IPsuLink L⦄ ⦃d : IDielLink D⦄ (p : IsPowerLink L) where
  pub check_link-Keeps :
      (r : Readings) (c : EdmController F L D)
      → IsSafe p c
      → IsSafe p (check_link r c) × NoStart p c (check_link r c)
  unfolding check_link
  check_link-Keeps r c h = ground (arith, p.stop_off c.link)

  pub check_diel-Keeps :
      (r : Readings) (c : EdmController F L D)
      → IsSafe p c
      → IsSafe p (check_diel r c) × NoStart p c (check_diel r c)
  unfolding check_diel
  check_diel-Keeps r c h = ground (arith, p.stop_off c.link)

  pub run_armed-IsSafe :
      (r : Readings) (c : EdmController F L D) → IsSafe p c → IsSafe p (run_armed r c)
  unfolding run_armed
  run_armed-IsSafe r c h = ground (arith, p.stop_off c.link)

  pub end_relief-Keeps :
      (c : EdmController F L D) → IsSafe p c → IsSafe p (end_relief c) × NoStart p c (end_relief c)
  unfolding end_relief
  end_relief-Keeps c h = ground arith

  pub clear_severity-Keeps :
      (c : EdmController F L D)
      → IsSafe p c
      → IsSafe p (clear_severity c) × NoStart p c (clear_severity c)
  unfolding clear_severity
  clear_severity-Keeps c h = grind (arith, send_same)

  run_touch_off-Keeps :
      (c : EdmController F L D) (inp : GapServoInput F)
      → IsSafe p c
      → IsSafe p (run_touch_off c inp) × NoStart p c (run_touch_off c inp)
  unfolding run_touch_off
  run_touch_off-Keeps c inp h = ground (arith, p.stop_off c.link)

  watch_gap-Keeps :
      (c : EdmController F L D) (inp : GapServoInput F)
      → IsSafe p c
      → IsSafe p (watch_gap c inp) × NoStart p c (watch_gap c inp)
  unfolding watch_gap
  watch_gap-Keeps c inp h = ground arith

  start_hold-Keeps :
      (c : EdmController F L D)
      → IsSafe p c
      → IsSafe p (start_hold c) × (p.powered (start_hold c).link ≡ p.powered c.link)
  unfolding start_hold
  start_hold-Keeps c h = ground arith

  watch_stall-Keeps :
      (c : EdmController F L D) (inp : GapServoInput F) (out : GapServoOutput F)
      → IsSafe p c
      → IsSafe p (watch_stall c inp out) × NoStart p c (watch_stall c inp out)
  unfolding watch_stall
  watch_stall-Keeps c inp out h =
      let (safe, same) = start_hold-Keeps c h in
      ground (arith, p.stop_off (start_hold c).link, safe, same)

  apply_servo-Keeps :
      (c : EdmController F L D) (inp : GapServoInput F) (out : GapServoOutput F)
      → IsSafe p c
      → IsSafe p (apply_servo c inp out).0 × NoStart p c (apply_servo c inp out).0
  unfolding apply_servo
  apply_servo-Keeps c inp out h =
      let c' : EdmController F L D = record c { servo_state = out.next } in
      let contact = run_touch_off-Keeps c' inp h in
      let gap = watch_gap-Keeps c' inp h in
      let stall = watch_stall-Keeps (watch_gap c' inp) inp out gap.0 in
      let both =
        NoStart-trans p c' (watch_gap c' inp) (watch_stall (watch_gap c' inp) inp out) gap.1
          stall.1 in
      elim (Bool-cases (is_touch_off c.state)) [
        | inl a ↦ rw a contact
        | inr a ↦ elim (Bool-cases (is_cutting_or_hold c.state)) [
          | inl b ↦ rw (a, b) (stall.0, both)
          | inr b ↦ elim (Bool-cases (is_break_relief c.state)) [
            | inl e ↦ rw (a, b, e) (h, inl refl)
            | inr e ↦ rw (a, b, e) (h, inl refl)
          ]
        ]
      ]

  pub run_servo-Keeps :
      (r : Readings) (c : EdmController F L D)
      → IsSafe p c
      → IsSafe p (run_servo r c).0 × NoStart p c (run_servo r c).0
  unfolding run_servo
  run_servo-Keeps r c h = apply_servo-Keeps c (servo_input r c) _ h
