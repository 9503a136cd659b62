-- ===== src/Tests/Commands.antt =====
-- The commands on concrete inputs.
use fluid_edm.Base.{ℕ, ◌≡◌, refl, true, Option, none, some, List, [], ◌∷◌}
use fluid_edm.Base.Int.{ℤ, pos}
use fluid_edm.Base.Fixed.{micros}
use fluid_edm.Psu.CanLink.{CanPsuLink, CanBus, new_link, can_psu_link}
use fluid_edm.Diel.CanLink.{CanDielLink, new_diel_link, can_diel_link}
use fluid_edm.Servo.ModeTable.{finish, rough, default_table}
use fluid_edm.Servo.GapServo.{default_servo}
use fluid_edm.Control.State.{EdmController, default_timers, new_controller}
use fluid_edm.Commands.{edm_mode, rough_token, finish_token, ignite_token}
use fluid_edm.Commands.Modes.{edm_mode_names, mode_left}
use fluid_edm.Control.Report.{EdmReport, no_report}
use fluid_edm.Feed.TensionController.{tension_reset}
use fluid_edm.Feed.WireFeed.{WireFeed, CellLines, new_wire_feed}

-- reads a single digit
abbrev digit : List ℕ → Option ℤ
digit [] = none
digit (ch ∷ chs) = some (pos ch)

abbrev bus : CanBus
bus = record { sent = [] }

abbrev spindle : EdmController ℤ CanPsuLink CanDielLink
unfolding new_controller new_link
spindle = new_controller (new_link bus) default_servo default_table default_timers

abbrev module_link : CanDielLink
unfolding new_diel_link
module_link = new_diel_link bus

edm_mode_names_example :
    (mode_left digit (edm_mode digit (some spindle) rough_token) ≡ some finish)
    × (mode_left digit (edm_mode digit (some spindle) finish_token) ≡ some finish)
    × (mode_left digit (edm_mode digit (some spindle) ignite_token) ≡ some rough)
unfolding new_controller spindle
edm_mode_names_example = edm_mode_names digit spindle refl refl

-- a wire feed with a collapse on record
abbrev torn_feed : WireFeed ℤ
torn_feed = record new_wire_feed { state = record tension_reset { collapse_latched = true } }

abbrev cut_report : EdmReport
cut_report = record no_report { controller_state = 3 }

abbrev quiet_cell : CellLines
quiet_cell = record { dout = true; dout_at = λ i. true }
