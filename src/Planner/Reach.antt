-- ===== src/Planner/Reach.antt =====
-- What holds of the planner after any run of its operations.
use fluid_edm.Base.{ℕ, ◌+◌, ◌≡◌, ◌≤◌, ◌==◌, false, Option, some}
use mathlib.Core.Path.{subst}
use fluid_edm.Base.Float.{Float}
use fluid_edm.Planner.{
  Planner, PlanBlock, plan_reset_buffer, plan_discard_current_block, plan_check_full_buffer,
  plan_get_block_buffer_available, queue_block, plan_cycle_reinitialize,
}
use fluid_edm.Planner.Ring.{dist, IsRing, reset-IsRing, discard-IsRing, available-IsRing}
use fluid_edm.Planner.Walk.{reinitialize-Ended, queue_block-IsRing}
use fluid_edm.Planner.Profile.{plan_update_velocity_profile_parameters, update_velocity-Ended}

-- One operation of the planner. A line is given to it only when it is not full, and is not a system
-- motion.
pub data PlanStep {F : Type 0} ⦃f : Float F⦄ : Planner F → Planner F → Type 0 where
  resets : (p : Planner F) → PlanStep p (record p { ring = plan_reset_buffer (p.ring) })
  discards : (p : Planner F) → PlanStep p (record p { ring = plan_discard_current_block (p.ring) })
  queues :
      (r_override f_override : ℕ) (p q : Planner F) (b : PlanBlock F)
      → plan_check_full_buffer p.ring ≡ false
      → b.system_motion ≡ false
      → queue_block r_override f_override p b ≡ some q
      → PlanStep p q
  reinitializes : (p q : Planner F) → plan_cycle_reinitialize p ≡ some q → PlanStep p q
  updates :
      (r_override f_override : ℕ) (p q : Planner F)
      → plan_update_velocity_profile_parameters r_override f_override p ≡ some q
      → PlanStep p q

pub data PlanReach {F : Type 0} ⦃f : Float F⦄ : Planner F → Planner F → Type 0 where
  here : (p : Planner F) → PlanReach p p
  next : (p q r : Planner F) → PlanReach p q → PlanStep q r → PlanReach p r

module _ {F : Type 0} ⦃f : Float F⦄ where
  some-IsRing :
      (e : Option (Planner F)) (p q : Planner F)
      → e ≡ some p
      → e ≡ some q
      → IsRing p.ring
      → IsRing q.ring
  some-IsRing e p q h k ring =
      let same : p ≡ q = cc in subst (λ (r : Planner F). IsRing r.ring) same ring

  PlanStep-IsRing : (p q : Planner F) → IsRing p.ring → PlanStep p q → IsRing q.ring
  PlanStep-IsRing _ _ ring (resets p) = reset-IsRing p.ring ring.two
  PlanStep-IsRing _ _ ring (discards p) = discard-IsRing p.ring ring
  PlanStep-IsRing _ _ ring (queues ro fo p q b free ordinary done) =
      let (q', ends, in_order, same_tail, grown) =
        queue_block-IsRing ro fo p b ring free ordinary in
      some-IsRing (queue_block ro fo p b) q' q ends done in_order
  PlanStep-IsRing _ _ ring (reinitializes p q done) =
      let (q', ends, planned) = reinitialize-Ended p ring in
      some-IsRing (plan_cycle_reinitialize p) q' q ends done planned.in_order
  PlanStep-IsRing _ _ ring (updates ro fo p q done) =
      let (q', ends, planned) = update_velocity-Ended ro fo p ring in
      some-IsRing (plan_update_velocity_profile_parameters ro fo p) q' q ends done planned.in_order

  reach-IsRing : (p q : Planner F) → IsRing p.ring → PlanReach p q → IsRing q.ring
  reach-IsRing _ _ ring (here p) = ring
  reach-IsRing _ _ ring (next p q r before step) =
      PlanStep-IsRing q r (reach-IsRing p q ring before) step

  -- After any run of resets, discards, re-plans, changes of override, and lines of an ordinary motion
  -- that are queued only while the ring is not full, of a planner with at least two blocks that starts
  -- with a reset: the indices are in the ring, the planned block is the tail or another queued one, the
  -- available and the queued blocks are all but one, and the ring is full when none is available.
  pub reach-reset-IsRing :
      (p q : Planner F)
      → 2 ≤ p.ring.size
      → PlanReach (record p { ring = plan_reset_buffer (p.ring) }) q
      → IsRing q.ring
        × (plan_get_block_buffer_available q.ring + dist q.ring.size q.ring.tail q.ring.head + 1
            ≡ q.ring.size)
        × (plan_check_full_buffer q.ring ≡ (plan_get_block_buffer_available q.ring == 0))
  reach-reset-IsRing p q two run =
      let ring =
        reach-IsRing (record p { ring = plan_reset_buffer (p.ring) }) q (reset-IsRing p.ring two)
          run in
      let (sum, full) = available-IsRing q.ring ring in (ring, sum, full)
