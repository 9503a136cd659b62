-- ===== src/Psu/CanLink/Power.antt =====
-- The CAN link as the controller's interface to the cutting power: the power is on when the last
-- START_CUT or STOP_CUT command on the bus was START_CUT.
use fluid_edm.Base.{
  ◌≡◌, refl, Bool, true, false, some, List, [], ◌∷◌, ◌++◌, arith, ◌==◌, if◌then◌else◌, get_or,
}
use fluid_edm.Wire.Frame.{CanFrame, new_frame}
use fluid_edm.Psu.Messages.{SetModeBounds, ctl_start_cut, ctl_stop_cut, control_code, id_control}
use fluid_edm.Psu.Codec.{encode_control, encode_set_mode_bounds}
use fluid_edm.Psu.Link.{Event}
use fluid_edm.Psu.CanLink.{
  CanPsuLink, send, set_mode_bounds, start_cut, stop_cut, clear_fault, pop_event, pop_front,
  can_psu_link, on_frame,
}
use fluid_edm.Psu.CanLink.Session.{on_frame_lem}

-- what the supply makes of one frame
abbrev pub obey : Bool → CanFrame → Bool
obey on f =
    if f.id == id_control
    then (if get_or f.data_bytes 0 0 == control_code ctl_start_cut
        then true
        else if get_or f.data_bytes 0 0 == control_code ctl_stop_cut
        then false
        else on)
    else on

unfoldable pub obey_all : Bool → List CanFrame → Bool
obey_all on [] = on
obey_all on (f ∷ fs) = obey_all (obey on f) fs

obey_all-snoc :
    (on : Bool) (fs : List CanFrame) (f : CanFrame)
    → obey_all on (fs ++ (f ∷ [])) ≡ obey (obey_all on fs) f
unfolding obey_all
obey_all-snoc on [] f = refl
obey_all-snoc on (g ∷ fs) f = obey_all-snoc (obey on g) fs f

unfoldable pub commanded : CanPsuLink → Bool
commanded l = obey_all false l.bus.sent

-- START_CUT turns the power on and STOP_CUT off; CLEAR_FAULT and SET_MODE_BOUNDS leave it as it
-- is.
pub commanded_lem :
    (l : CanPsuLink) (m : SetModeBounds)
    → (commanded (start_cut l) ≡ true)
      × (commanded (stop_cut l) ≡ false)
      × (commanded (clear_fault l) ≡ commanded l)
      × (commanded (set_mode_bounds l m).0 ≡ commanded l)
unfolding commanded start_cut stop_cut clear_fault set_mode_bounds send encode_control
    encode_set_mode_bounds new_frame
commanded_lem l m = (
  obey_all-snoc false l.bus.sent _,
  obey_all-snoc false l.bus.sent _,
  obey_all-snoc false l.bus.sent _,
  obey_all-snoc false l.bus.sent _,
)

pub commanded-pop_event :
    (l : CanPsuLink) (e : Event) (l' : CanPsuLink)
    → pop_event l ≡ some (e, l')
    → commanded l' ≡ commanded l
unfolding commanded pop_event pop_front
commanded-pop_event l e l' h = ground arith

-- A received frame leaves the power as it is.
pub commanded-on_frame : (l : CanPsuLink) (f : CanFrame) → commanded (on_frame l f) ≡ commanded l
unfolding commanded
commanded-on_frame l f = rw ((on_frame_lem l f).2)
