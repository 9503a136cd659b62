-- ===== src/Tests/Report.antt =====
-- The status objects on concrete reports; `float` runs in whole millionths.
use fluid_edm.Base.{◌≡◌, refl, Option, none, [], ◌∷◌}
use fluid_edm.Base.Int.{ℤ, negsuc}
use fluid_edm.Base.Decimal.{digits}
use fluid_edm.Base.Fixed.{micros}
use fluid_edm.Psu.CanLink.{CanPsuLink, CanBus, new_link, can_psu_link}
use fluid_edm.Diel.CanLink.{CanDielLink, can_diel_link}
use fluid_edm.Servo.ModeTable.{default_table}
use fluid_edm.Servo.GapServo.{default_servo}
use fluid_edm.Control.State.{EdmController, default_timers, new_controller}
use fluid_edm.Control.Tick.{tick}
use fluid_edm.Feed.WireFeed.{WireFeed}
use fluid_edm.Report.{num_deci}
use fluid_edm.Report.Names.{Shows, tick-Shows}

-- "-5.3"
minus_text : num_deci (negsuc 52) ≡ b'-' ∷ b'5' ∷ b'.' ∷ b'3' ∷ []
unfolding num_deci digits
minus_text = refl

abbrev no_feed : Option (WireFeed ℤ)
no_feed = none

abbrev bus : CanBus
bus = record { sent = [] }

abbrev fresh_controller : EdmController ℤ CanPsuLink CanDielLink
unfolding new_controller new_link
fresh_controller = new_controller (new_link bus) default_servo default_table default_timers

tick-Shows_example :
    Shows
      (tick fresh_controller 5).report
      no_feed
      (tick fresh_controller 5).state
      (tick fresh_controller 5).reason
tick-Shows_example = tick-Shows fresh_controller 5 no_feed
