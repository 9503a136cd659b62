-- ===== src/Report/Names.antt =====
-- The names that the telemetry shows after a tick of the controller.
use Prim.Native.String.{String}
use package.text.Mathlib.Text
use fluid_edm.Base.{
  ℕ, ◌≡◌, refl, Option, none, some, [], ◌∷◌, if◌then◌else◌, Bool-cases, inl, inr, ltb,
}
use fluid_edm.Base.Float.{Float}
use fluid_edm.Psu.Link.{IPsuLink}
use fluid_edm.Diel.Messages.{IDielLink}
use fluid_edm.Servo.GapServo.{GapServoOutput}
use fluid_edm.Control.Report.{
  EdmState, idle, armed, touch_off, cutting, hold_state, break_relief_state, stall_fault, fault,
  FaultReason, no_fault, ack_timeout, protocol_mismatch, touch_off_no_contact, servo_stall,
  heartbeat_lost, psu_fault, sensor_disagree, dielectric_not_ready, dielectric_lost, state_code,
  reason_code, EdmReport,
}
use fluid_edm.Control.State.{EdmController}
use fluid_edm.Control.Stages.{Readings}
use fluid_edm.Control.Tick.{pulses, write_report, tick}
use fluid_edm.Feed.WireFeed.{WireFeed}
use fluid_edm.Report.{
  text, Value, leaf, Members, fault_leaf, edm_controller_state_name, edm_fault_name, emit_core,
  report_edm_stats,
}

-- the enumerators' names in EdmController.h
abbrev pub state_name : EdmState → String
state_name idle = "Idle"
state_name armed = "Armed"
state_name touch_off = "TouchOff"
state_name cutting = "Cutting"
state_name hold_state = "Hold"
state_name break_relief_state = "BreakRelief"
state_name stall_fault = "StallFault"
state_name fault = "Fault"

-- the enumerators' names in FaultReason.h, where no fault has none
abbrev pub reason_name : FaultReason → Option String
reason_name no_fault = none
reason_name ack_timeout = some "AckTimeout"
reason_name protocol_mismatch = some "ProtocolMismatch"
reason_name touch_off_no_contact = some "TouchOffNoContact"
reason_name servo_stall = some "ServoStall"
reason_name heartbeat_lost = some "HeartbeatLost"
reason_name psu_fault = some "PsuFault"
reason_name sensor_disagree = some "SensorDisagree"
reason_name dielectric_not_ready = some "DielectricNotReady"
reason_name dielectric_lost = some "DielectricLost"

-- the first member with a tag
abbrev pub member_of : {F : Type 0} → String → Members F → Option (Value F)
member_of tag [] = none
member_of tag ((other, v) ∷ rest) = if Text.◌==◌ tag other then some v else member_of tag rest

state_name-code : (s : EdmState) → edm_controller_state_name (state_code s) ≡ state_name s
unfolding edm_controller_state_name
state_name-code idle = refl
state_name-code armed = refl
state_name-code touch_off = refl
state_name-code cutting = refl
state_name-code hold_state = refl
state_name-code break_relief_state = refl
state_name-code stall_fault = refl
state_name-code fault = refl

reason_name-code : (r : FaultReason) → edm_fault_name (reason_code r) ≡ reason_name r
unfolding edm_fault_name
reason_name-code no_fault = refl
reason_name-code ack_timeout = refl
reason_name-code protocol_mismatch = refl
reason_name-code touch_off_no_contact = refl
reason_name-code servo_stall = refl
reason_name-code heartbeat_lost = refl
reason_name-code psu_fault = refl
reason_name-code sensor_disagree = refl
reason_name-code dielectric_not_ready = refl
reason_name-code dielectric_lost = refl

module _ {F : Type 0} ⦃f : Float F⦄ where
  -- the state and the reason under their tags
  abbrev pub Shows : EdmReport → Option (WireFeed F) → EdmState → FaultReason → Type 0
  Shows r w s reason =
      (member_of "controller_state" (report_edm_stats r w) ≡ some (leaf (text (state_name s))))
      × (member_of "fault" (report_edm_stats r w) ≡ some (leaf (fault_leaf (reason_name reason))))

  Shows-codes :
      (r : EdmReport) (w : Option (WireFeed F)) (s : EdmState) (reason : FaultReason)
      → r.controller_state ≡ state_code s
      → r.fault_reason ≡ reason_code reason
      → Shows r w s reason
  unfolding report_edm_stats emit_core
  Shows-codes r w s reason p q =
      (rw (p, state_name-code s) refl, rw (q, reason_name-code reason) refl)

  module _ {L D : Type 0} ⦃k : IPsuLink L⦄ ⦃d : IDielLink D⦄ where
    written_codes :
        (r : Readings) (c : EdmController F L D) (out : Option (GapServoOutput F))
        → ((write_report r c out).report.controller_state ≡ state_code (write_report r c out).state)
          × ((write_report r c out).report.fault_reason ≡ reason_code (write_report r c out).reason)
    unfolding write_report
    written_codes r c none = (refl, refl)
    written_codes r c (some out) = elim (Bool-cases (ltb 0 (pulses r.stats))) [
      | inl counted ↦ (rw (write_report, counted) refl, rw (write_report, counted) refl)
      | inr none_yet ↦ (rw (write_report, none_yet) refl, rw (write_report, none_yet) refl)
    ]

    -- After every tick, the telemetry pushed to the web page names the state that the controller is in,
    -- and names its fault reason, with `null` exactly when there is none.
    pub tick-Shows :
        (c : EdmController F L D) (now_ms : ℕ) (w : Option (WireFeed F))
        → Shows (tick c now_ms).report w (tick c now_ms).state (tick c now_ms).reason
    unfolding tick
    tick-Shows c now_ms w = let (p, q) = written_codes _ _ _ in Shows-codes _ w _ _ p q
