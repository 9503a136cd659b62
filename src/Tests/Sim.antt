-- ===== src/Tests/Sim.antt =====
-- The simulated links on concrete inputs; `float` runs in whole millionths.
use fluid_edm.Base.{refl, [], ◌∷◌, arith}
use fluid_edm.Base.Int.{ℤ}
use fluid_edm.Base.Fixed.{micros}
use fluid_edm.Psu.Link.{Event, info}
use fluid_edm.Psu.SimLink.{SimPsuLink, new_sim}
use fluid_edm.Psu.SimLink.Ring.{IsRing}
use fluid_edm.Diel.SimLink.{SimDielLink, new_sim_diel}

abbrev sim : SimPsuLink ℤ
sim = new_sim

sim-IsRing : IsRing sim
sim-IsRing = record { slots = refl; head_fits = omega arith; count_fits = omega arith }

abbrev note : Event
note = info (33 ∷ [])

abbrev loop : SimDielLink ℤ
loop = new_sim_diel
