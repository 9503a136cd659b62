-- ===== src/Control/Power/SimLink.antt =====
-- The simulated supply fills the controller's interface to the cutting power: its power is `_cutting`.
use fluid_edm.Base.{◌≡◌, refl, some, arith}
use fluid_edm.Psu.Link.{Event}
use fluid_edm.Psu.SimLink.{
  SimPsuLink, start_sim_cut, stop_sim_cut, set_sim_bounds, pop_sim_event, sim_psu_link,
}
use fluid_edm.Control.Power.{IsPowerLink}

pop_sim-cutting :
    {F : Type 0} (l : SimPsuLink F) (e : Event) (l' : SimPsuLink F)
    → pop_sim_event l ≡ some (e, l')
    → l'.cutting ≡ l.cutting
unfolding pop_sim_event
pop_sim-cutting l e l' h = ground arith

-- the simulated supply is powered between startCut and stopCut
pub sim_power : {F : Type 0} → IsPowerLink (SimPsuLink F)
unfolding start_sim_cut stop_sim_cut set_sim_bounds
sim_power = record {
  powered = λ l. l.cutting;
  start_on = λ l. refl;
  stop_off = λ l. refl;
  clear_same = λ l. refl;
  bounds_same = λ l m. refl;
  pop_same = pop_sim-cutting;
}
