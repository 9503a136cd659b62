-- ===== src/Control/Power/Invariant.antt =====
-- No call of the controller and no tick leaves the cutting power on in a quiet state.
use fluid_edm.Base.{ℕ, ◌≡◌, inr, false, arith}
use fluid_edm.Base.Float.{Float}
use fluid_edm.Psu.Link.{IPsuLink}
use fluid_edm.Diel.Messages.{IDielLink}
use fluid_edm.Servo.GapServo.{ServoConfig}
use fluid_edm.Servo.ModeTable.{ModeTable}
use fluid_edm.Control.State.{
  EdmController, ControllerTimers, DielInterlock, new_controller, attach_dielectric, request_cut,
  request_stop, notify_cut_complete, clear_fault,
}
use fluid_edm.Control.Stages.{Readings, readings, note_window, report_diel}
use fluid_edm.Control.Tick.{drained, prepare, write_report, tick}
use fluid_edm.Control.Power.{IsPowerLink, IsSafe}
use fluid_edm.Control.Power.Stages.{
  send_same, drain-Keeps, check_link-Keeps, check_diel-Keeps, run_armed-IsSafe, end_relief-Keeps,
  clear_severity-Keeps, run_servo-Keeps,
}

module _ {F L D : Type 0} ⦃f : Float F⦄ ⦃k : IPsuLink L⦄ ⦃d : IDielLink D⦄ (p : IsPowerLink L) where
  pub note_window-IsSafe : (c : EdmController F L D) → IsSafe p c → IsSafe p (note_window c)
  unfolding note_window
  note_window-IsSafe c h = ground arith

  prepare-IsSafe : (r : Readings) (c : EdmController F L D) → IsSafe p c → IsSafe p (prepare r c)
  unfolding prepare report_diel
  prepare-IsSafe r c h =
      let seen = note_window-IsSafe c h in
      let linked = (check_link-Keeps p r (report_diel r (note_window c)) seen).0 in
      let wet = (check_diel-Keeps p r _ linked).0 in
      let ready = run_armed-IsSafe p r _ wet in
      (clear_severity-Keeps p _ (end_relief-Keeps p _ ready).0).0

  -- A tick keeps the power off in the states Idle, StallFault and Fault.
  pub tick-IsSafe : (c : EdmController F L D) (now_ms : ℕ) → IsSafe p c → IsSafe p (tick c now_ms)
  unfolding tick drained write_report
  tick-IsSafe c now_ms h =
      let c1 = drained c now_ms in
      let quiet = (drain-Keeps p 8 (record c { now = now_ms }) h).0 in
      (run_servo-Keeps p (readings c1) (prepare (readings c1) c1)
        (prepare-IsSafe (readings c1) c1 quiet)).0

  request_stop-IsSafe : (c : EdmController F L D) → IsSafe p (request_stop c)
  unfolding request_stop
  request_stop-IsSafe c = inr (p.stop_off c.link)

  request_cut-IsSafe : (c : EdmController F L D) (s : ℕ) → IsSafe p c → IsSafe p (request_cut c s)
  unfolding request_cut
  request_cut-IsSafe c s h = grind (arith, send_same, request_stop-IsSafe)

  complete-IsSafe : (c : EdmController F L D) → IsSafe p c → IsSafe p (notify_cut_complete c)
  unfolding notify_cut_complete
  complete-IsSafe c h = ground (arith, request_stop-IsSafe c)

  clear_fault-IsSafe : (c : EdmController F L D) → IsSafe p c → IsSafe p (clear_fault c)
  unfolding clear_fault
  clear_fault-IsSafe c h = ground (arith, p.clear_same c.link)

-- What can happen to a controller: its calls, its ticks, and frames that arrive at the link or the
-- dielectric link in between, which leave the power as it is.
pub data Step {F L D : Type 0} ⦃f : Float F⦄ ⦃k : IPsuLink L⦄ ⦃d : IDielLink D⦄ (p : IsPowerLink L)
    : EdmController F L D → EdmController F L D → Type 0 where
  cuts : (c : EdmController F L D) (s : ℕ) → Step p c (request_cut c s)
  stops : (c : EdmController F L D) → Step p c (request_stop c)
  completes : (c : EdmController F L D) → Step p c (notify_cut_complete c)
  clears : (c : EdmController F L D) → Step p c (clear_fault c)
  attaches :
      (c : EdmController F L D) (x : D) (cfg : DielInterlock) → Step p c (attach_dielectric c x cfg)
  ticks : (c : EdmController F L D) (now_ms : ℕ) → Step p c (tick c now_ms)
  receives :
      (c : EdmController F L D) (l : L)
      → p.powered l ≡ p.powered c.link
      → Step p c (record c { link = l })

pub data Reach {F L D : Type 0} ⦃f : Float F⦄ ⦃k : IPsuLink L⦄ ⦃d : IDielLink D⦄ (p : IsPowerLink L)
    (a : EdmController F L D) : EdmController F L D → Type 0 where
  here : Reach p a a
  next : {b c : EdmController F L D} → Reach p a b → Step p b c → Reach p a c

module _ {F L D : Type 0} ⦃f : Float F⦄ ⦃k : IPsuLink L⦄ ⦃d : IDielLink D⦄ (p : IsPowerLink L) where
  Step-IsSafe : {a b : EdmController F L D} → Step p a b → IsSafe p a → IsSafe p b
  unfolding attach_dielectric
  Step-IsSafe (cuts c s) h = request_cut-IsSafe p c s h
  Step-IsSafe (stops c) h = request_stop-IsSafe p c
  Step-IsSafe (completes c) h = complete-IsSafe p c h
  Step-IsSafe (clears c) h = clear_fault-IsSafe p c h
  Step-IsSafe (attaches c x cfg) h = h
  Step-IsSafe (ticks c now_ms) h = tick-IsSafe p c now_ms h
  Step-IsSafe (receives c l e) h = ground arith

  Reach-IsSafe : {a b : EdmController F L D} → Reach p a b → IsSafe p a → IsSafe p b
  Reach-IsSafe here h = h
  Reach-IsSafe (next r s) h = Step-IsSafe s (Reach-IsSafe r h)

  -- Whatever calls, ticks and received frames follow one another, from a new controller whose supply
  -- is off the cutting power is off in each of the states Idle, StallFault and Fault.
  pub Reach-new-IsSafe :
      (l : L) (cfg : ServoConfig F) (modes : ModeTable) (timers : ControllerTimers)
      (b : EdmController F L D)
      → p.powered l ≡ false
      → Reach p (new_controller l cfg modes timers) b
      → IsSafe p b
  unfolding new_controller
  Reach-new-IsSafe l cfg modes timers b off r = Reach-IsSafe r (inr off)
