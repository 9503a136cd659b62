-- ===== src/Realtime.antt =====
-- RealtimeCmd.cpp, Config.h and the override handlers of Protocol.cpp: what a realtime character does to
-- the overrides. A handler's calls of other parts are listed as effects. `Percent` is uint_fast8_t,
-- whose width, at least 8, is the platform's and an argument here.

pub mod Bounds
use fluid_edm.Base.{
  ℕ, ◌+◌, ◌-◌, ◌%◌, ◌^◌, Bool, true, false, Option, none, some, List, [], ◌∷◌, ◌++◌, ltb, ◌==◌,
  ◌&&◌, ◌||◌, not, if◌then◌else◌,
}
use fluid_edm.Base.Int.{ℤ, pos, negsuc, neg}

-- `State`
pub data State : Type 0 where
  idle alarm check_mode homing cycle hold held jog safety_door sleep : State
  config_alarm critical starting : State

-- an event that a character sends, with its argument; the macros are numbered
pub data Event : Type 0 where
  rt_reset cycle_start feed_hold safety_door_event motion_cancel debug : Event
  accessory_override rapid_override macro_event : ℕ → Event
  feed_override spindle_override : ℤ → Event

-- the namespaces FeedOverride, RapidOverride and SpindleSpeedOverride; the first and the last agree
abbrev pub override_default : ℕ
override_default = 100

abbrev pub override_max : ℕ
override_max = 200

abbrev pub override_min : ℕ
override_min = 10

abbrev pub coarse_increment : ℕ
coarse_increment = 10

abbrev pub fine_increment : ℕ
fine_increment = 1

abbrev pub rapid_medium : ℕ
rapid_medium = 50

abbrev pub rapid_low : ℕ
rapid_low = 25

abbrev pub rapid_extra_low : ℕ
rapid_extra_low = 5

-- AccessoryOverride
abbrev pub spindle_stop_toggle : ℕ
spindle_stop_toggle = 1

abbrev pub flood_toggle : ℕ
flood_toggle = 2

abbrev pub mist_toggle : ℕ
mist_toggle = 3

-- the characters of `Cmd` that send an event in every state
abbrev pub commands : List (ℕ × Event)
commands =
    (0x18, rt_reset)
    ∷ (b'~', cycle_start)
    ∷ (b'!', feed_hold)
    ∷ (0x84, safety_door_event)
    ∷ (0x86, debug)
    ∷ (0x9E, accessory_override spindle_stop_toggle)
    ∷ (0x90, feed_override (pos override_default))
    ∷ (0x91, feed_override (pos coarse_increment))
    ∷ (0x92, feed_override (neg (pos coarse_increment)))
    ∷ (0x93, feed_override (pos fine_increment))
    ∷ (0x94, feed_override (neg (pos fine_increment)))
    ∷ (0x95, rapid_override override_default)
    ∷ (0x96, rapid_override rapid_medium)
    ∷ (0x97, rapid_override rapid_low)
    ∷ (0x98, rapid_override rapid_extra_low)
    ∷ (0x99, spindle_override (pos override_default))
    ∷ (0x9A, spindle_override (pos coarse_increment))
    ∷ (0x9B, spindle_override (neg (pos coarse_increment)))
    ∷ (0x9C, spindle_override (pos fine_increment))
    ∷ (0x9D, spindle_override (neg (pos fine_increment)))
    ∷ (0xA0, accessory_override flood_toggle)
    ∷ (0xA1, accessory_override mist_toggle)
    ∷ (0x87, macro_event 0)
    ∷ (0x88, macro_event 1)
    ∷ (0x89, macro_event 2)
    ∷ (0x8A, macro_event 3)
    ∷ []

abbrev pub find_event : List (ℕ × Event) → ℕ → List Event
find_event [] c = []
find_event ((code, e) ∷ rest) c = if c == code then e ∷ [] else find_event rest c

abbrev pub is_jog : State → Bool
is_jog jog = true
is_jog _ = false

-- the events that `execute_realtime_command` sends; '?' reports the status at once and sends none
unfoldable pub execute_realtime_command : State → ℕ → List Event
execute_realtime_command s c =
    if c == 0x85 then if is_jog s then motion_cancel ∷ [] else [] else find_event commands c

-- `SpindleStop`
pub record SpindleStop : Type 0 where
  pub enabled : Bool
  pub initiate : Bool
  pub restore : Bool
  pub restore_cycle : Bool

pub data SpindleState : Type 0 where
  disable cw ccw : SpindleState

-- the calls of a handler
pub data Effect : Type 0 where
  update_velocities gc_ovr_changed : Effect
  spindle_set_state : SpindleState → ℕ → Effect
  coolant_set_state : Bool → Bool → Effect

-- `sys`, `gc_state` and the configuration, as far as the handlers read them
pub record Machine : Type 0 where
  pub state : State
  pub hold_complete : Bool
  pub f_override : ℕ
  pub r_override : ℕ
  pub spindle_speed_ovr : ℕ
  pub update_spindle_speed : Bool
  pub spindle_stop_ovr : SpindleStop
  pub modal_spindle : SpindleState
  pub spindle_speed : ℕ
  pub flood : Bool
  pub mist : Bool
  pub has_flood : Bool
  pub has_mist : Bool
  pub effects : List Effect

abbrev pub call : Machine → List Effect → Machine
call m es = record m { effects = m.effects ++ es }

-- `percent + increment`, stored in a `Percent` of `w` bits
unfoldable pub add_percent : ℕ → ℕ → ℤ → ℕ
add_percent w p (pos n) = (p + n) % 2 ^ w
add_percent w p (negsuc n) = (p + 2 ^ w - (n + 1) % 2 ^ w) % 2 ^ w

abbrev pub is_default : ℤ → Bool
is_default (pos n) = n == override_default
is_default (negsuc n) = false

-- the new percentage of the feed and of the spindle override
unfoldable pub next_percent : ℕ → ℕ → ℤ → ℕ
next_percent w p increment =
    let sum = add_percent w p increment in
    if is_default increment
    then override_default
    else if ltb override_max sum
    then override_max
    else if ltb sum override_min
    then override_min
    else sum

unfoldable pub do_feed_override : ℕ → Machine → ℤ → Machine
do_feed_override w m increment =
    let percent = next_percent w m.f_override increment in
    if percent == m.f_override
    then m
    else call (record m { f_override = percent }) (update_velocities ∷ gc_ovr_changed ∷ [])

unfoldable pub do_rapid_override : ℕ → Machine → ℕ → Machine
do_rapid_override w m value =
    let percent = value % 2 ^ w in
    if percent == m.r_override
    then m
    else call (record m { r_override = percent }) (update_velocities ∷ gc_ovr_changed ∷ [])

abbrev pub is_hold : State → Bool
is_hold hold = true
is_hold _ = false

abbrev pub in_motion_state : Machine → Bool
in_motion_state m = elim m.state [
  | cycle ↦ true
  | homing ↦ true
  | jog ↦ true
  | hold ↦ not m.hold_complete
  | _ ↦ false
]

abbrev pub is_disable : SpindleState → Bool
is_disable disable = true
is_disable _ = false

unfoldable pub do_spindle_override : ℕ → Machine → ℤ → Machine
do_spindle_override w m increment =
    let percent = next_percent w m.spindle_speed_ovr increment in
    let changed =
      call (record m { spindle_speed_ovr = percent; update_spindle_speed = true })
        (gc_ovr_changed ∷ []) in
    if percent == m.spindle_speed_ovr
    then m
    else if not (is_disable m.modal_spindle) && not (in_motion_state m)
    then call changed (spindle_set_state m.modal_spindle m.spindle_speed ∷ gc_ovr_changed ∷ [])
    else changed

-- `spindle_stop_ovr.value != 0`
abbrev pub is_stopping : SpindleStop → Bool
is_stopping s = s.enabled || s.initiate || s.restore || s.restore_cycle

unfoldable pub next_stop : SpindleStop → SpindleStop
next_stop s =
    if not (is_stopping s)
    then record s { initiate = true }
    else if s.enabled
    then record s { restore = true }
    else s

abbrev pub takes_coolant : State → Bool
takes_coolant idle = true
takes_coolant cycle = true
takes_coolant hold = true
takes_coolant _ = false

unfoldable pub do_accessory_override : Machine → ℕ → Machine
do_accessory_override m a =
    if a == spindle_stop_toggle
    then if is_hold m.state
      then call (record m { spindle_stop_ovr = next_stop m.spindle_stop_ovr }) (gc_ovr_changed ∷ [])
      else m
    else if a == flood_toggle
    then if m.has_flood && takes_coolant m.state
      then call (record m { flood = not m.flood })
          (coolant_set_state (not m.flood) m.mist ∷ gc_ovr_changed ∷ [])
      else m
    else if a == mist_toggle
    then if m.has_mist && takes_coolant m.state
      then call (record m { mist = not m.mist })
          (coolant_set_state m.flood (not m.mist) ∷ gc_ovr_changed ∷ [])
      else m
    else m
