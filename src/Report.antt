-- ===== src/Report.antt =====
-- EDM/EdmReportChannel.cpp: the names of the states and the members of the status objects. A member is
-- its tag and what is written after it; the commas, quotes and line breaks are the JSON encoder's.
pub mod Schema
pub mod Deci
pub mod Names
use Prim.Native.String.{String}
use fluid_edm.Base.{
  ℕ, suc, ◌+◌, ◌*◌, ◌/◌, ◌%◌, Bool, true, false, Option, none, some, List, [], ◌∷◌, ◌++◌, ltb, ◌==◌,
  ◌&&◌, get_or, get_elem?, if◌then◌else◌,
}
use fluid_edm.Base.Int.{ℤ, pos, negsuc, neg, signed32}
use fluid_edm.Base.Decimal.{print_int}
use fluid_edm.Base.Float.{Float, nought}
use fluid_edm.Control.Report.{EdmReport}
use fluid_edm.Feed.TensionController.{TensionConfig, TensionState}
use fluid_edm.Feed.WireFeed.{WireFeed}

-- kControllerStateNames
abbrev pub controller_state_names : List String
controller_state_names =
    "Idle" ∷ "Armed" ∷ "TouchOff" ∷ "Cutting" ∷ "Hold" ∷ "BreakRelief" ∷ "StallFault" ∷ "Fault" ∷ []

-- kServoStateNames
abbrev pub servo_state_names : List String
servo_state_names = "Hold" ∷ "Track" ∷ "Retract" ∷ "ArcHold" ∷ "BreakRelief" ∷ []

-- kFaultNames
abbrev pub fault_names : List String
fault_names =
    "None" ∷ "AckTimeout" ∷ "ProtocolMismatch" ∷ "TouchOffNoContact" ∷ "ServoStall"
    ∷ "HeartbeatLost" ∷ "PsuFault" ∷ "SensorDisagree" ∷ "DielectricNotReady" ∷ "DielectricLost" ∷ []

unfoldable pub edm_controller_state_name : ℕ → String
edm_controller_state_name s = get_or controller_state_names s "Idle"

unfoldable pub edm_servo_state_name : ℕ → String
edm_servo_state_name s = get_or servo_state_names s "Hold"

-- a null pointer is `none`
unfoldable pub edm_fault_name : ℕ → Option String
edm_fault_name f = if f == 0 then none else get_elem? fault_names f

abbrev pub is_negative : ℤ → Bool
is_negative (pos n) = false
is_negative (negsuc n) = true

abbrev pub is_nought : ℤ → Bool
is_nought (pos n) = n == 0
is_nought (negsuc n) = false

-- `deci / 10`, rounded towards zero, and `deci % 10`, with the sign of `deci`
abbrev pub whole_of : ℤ → ℤ
whole_of (pos n) = pos (n / 10)
whole_of (negsuc n) = neg (pos (suc n / 10))

abbrev pub frac_of : ℤ → ℤ
frac_of (pos n) = pos (n % 10)
frac_of (negsuc n) = neg (pos (suc n % 10))

-- the text "%s%ld.%ld"
unfoldable pub num_deci : ℤ → List ℕ
num_deci deci =
    let whole = whole_of deci in
    let frac = if is_negative (frac_of deci) then neg (frac_of deci) else frac_of deci in
    let sign : List ℕ = if is_negative deci && is_nought whole then b'-' ∷ [] else [] in
    sign ++ (print_int whole ++ (b'.' ∷ print_int frac))

-- what stands after a tag: an integer, the text of a number in tenths, a float with one decimal, an integer divided
-- by a power of ten with so many decimals, a text, or `null`
pub data Leaf (F : Type 0) : Type 0 where
  num : ℤ → Leaf F
  deci : List ℕ → Leaf F
  num_f1 : F → Leaf F
  num_scaled : ℤ → ℕ → ℕ → Leaf F
  text : String → Leaf F
  null : Leaf F

pub data Value (F : Type 0) : Type 0 where
  leaf : Leaf F → Value F
  object : List (String × Leaf F) → Value F

abbrev pub Members : Type 0 → Type 0
Members F = List (String × Value F)

abbrev pub flag : Bool → ℤ
flag true = pos 1
flag false = pos 0

module _ {F : Type 0} where
  abbrev pub int : ℤ → Value F
  int v = leaf (num v)

  abbrev pub tenths : ℤ → Value F
  tenths v = leaf (deci (num_deci v))

  abbrev pub fault_leaf : Option String → Leaf F
  fault_leaf none = null
  fault_leaf (some name) = text name

  unfoldable pub emit_core : EdmReport → Members F
  emit_core r =
      ("window_id", int (signed32 r.window_id))
      ∷ ("controller_state", leaf (text (edm_controller_state_name r.controller_state)))
      ∷ ("servo_state", leaf (text (edm_servo_state_name r.servo_state)))
      ∷ ("v_cmd_um_s", int r.v_cmd_um_s)
      ∷ ("n_normal", int (pos r.n_normal))
      ∷ ("n_arc", int (pos r.n_arc))
      ∷ ("n_short", int (pos r.n_short))
      ∷ ("n_open", int (pos r.n_open))
      ∷ ("total_pulses", int (pos r.total_pulses))
      ∷ ("feed_cap_pct", int (pos r.feed_cap_pct))
      ∷ ("wire_break_sev", int (pos r.wire_break_sev))
      ∷ ("energy_uj", int (signed32 r.energy_delivered_uj))
      ∷ ("dc_link_v", tenths (pos r.dc_link_v_dv))
      ∷ ("peak_i_a", tenths (pos r.peak_i_mean_da))
      ∷ ("temp_gan_c", tenths r.temp_gan_dc)
      ∷ ("mode_id", int (pos r.active_mode_id))
      ∷ ("connected", int (flag r.connected))
      ∷ ("fault", leaf (fault_leaf (edm_fault_name r.fault_reason)))
      ∷ ("progress_pct", int (pos 0))
      ∷ ("feed_mm_min", int (pos 0))
      ∷ ("x", int (pos 0))
      ∷ ("y", int (pos 0))
      ∷ ("u", int (pos 0))
      ∷ ("v", int (pos 0))
      ∷ []

  unfoldable pub emit_dielectric : EdmReport → Members F
  emit_dielectric r =
      (
        "dielectric",
        object (
            ("present", num (flag r.diel_present))
            ∷ ("pump_on", num (pos r.diel_pump_on))
            ∷ ("flush_level", num (pos r.diel_flush_level))
            ∷ ("flush_bar", num_scaled (pos r.diel_flush_mbar) 1000 3)
            ∷ ("flow_lpm", num_scaled (pos r.diel_flow_clpm) 100 2)
            ∷ ("temp_c", deci (num_deci r.diel_temp_dc))
            ∷ ("temp_set", deci (num_deci r.diel_temp_set_dc))
            ∷ ("conductivity_us", num (pos r.diel_conductivity_us))
            ∷ ("level_pct", num (pos r.diel_level_pct))
            ∷ ("filter_pct", num (pos r.diel_filter_pct))
            ∷ ("flags", num (pos r.diel_flags))
            ∷ []),
      )
      ∷ []

  -- the members that `edm_status_dump` has besides
  unfoldable pub emit_raw : EdmReport → Members F
  emit_raw r =
      ("psu_state", int (pos r.psu_state))
      ∷ ("protocol_ok", int (flag r.protocol_ok))
      ∷ ("last_ack_status", int (pos r.last_ack_status))
      ∷ ("fault_reason", int (pos r.fault_reason))
      ∷ ("s_word", int (pos r.s_word))
      ∷ ("open_ratio_milli", int r.open_ratio_milli)
      ∷ ("short_ratio_milli", int r.short_ratio_milli)
      ∷ ("arc_ratio_milli", int r.arc_ratio_milli)
      ∷ ("g_milli", int r.g_milli)
      ∷ ("g_target_milli", int r.g_target_milli)
      ∷ ("e_filtered_milli", int r.e_filtered_milli)
      ∷ ("integrator_milli", int r.integrator_milli)
      ∷ ("peak_I_max_dA", int (pos r.peak_i_max_da))
      ∷ ("temp_L_dC", int r.temp_l_dc)
      ∷ ("flags", int (pos r.flags))
      ∷ []

module _ {F : Type 0} ⦃f : Float F⦄ where
  unfoldable pub emit_tension : Option (WireFeed F) → Members F
  emit_tension none =
      ("tension_N", leaf (num_f1 nought))
      ∷ ("tension_set_N", leaf (num_f1 nought))
      ∷ ("tension_collapse", int (pos 0))
      ∷ []
  emit_tension (some w) =
      ("tension_N", leaf (num_f1 w.last_n))
      ∷ ("tension_set_N", leaf (num_f1 w.controller.setpoint_n))
      ∷ ("tension_collapse", int (flag w.state.collapse_latched))
      ∷ []

  unfoldable pub report_edm_stats : EdmReport → Option (WireFeed F) → Members F
  report_edm_stats r w =
      ("type", leaf (text "edm_update")) ∷ (emit_core r ++ (emit_tension w ++ emit_dielectric r))

  unfoldable pub edm_status_dump : EdmReport → Option (WireFeed F) → Members F
  edm_status_dump r w =
      ("type", leaf (text "edm_full_status"))
      ∷ (emit_core r ++ (emit_tension w ++ (emit_dielectric r ++ emit_raw r)))
