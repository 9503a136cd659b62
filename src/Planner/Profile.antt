-- ===== src/Planner/Profile.antt =====
-- FluidNC/src/Planner.cpp: the new speed limits of the queued blocks after a change of an override.
use fluid_edm.Base.{
  ℕ, zero, suc, ◌≡◌, ◌≤◌, ◌<◌, refl, ap, ◌∙◌, if-elim, if_false, Bool-cases, inl, inr, ◌==◌, true,
  false, Option, none, some, if◌then◌else◌, set, arith,
}
use fluid_edm.Base.Float.{Float}
use fluid_edm.Planner.{
  Planner, plan_next_block_index, plan_compute_profile_nominal_speed,
  plan_compute_profile_parameters, plan_cycle_reinitialize, block_at,
}
use fluid_edm.Planner.Ring.{dist, IsRing, next-lt, dist-lt, dist-next}
use fluid_edm.Planner.Passes.{Ended, follow, same_ring-IsPlanned}
use fluid_edm.Planner.Walk.{reinitialize-Ended}

module _ {F : Type 0} ⦃f : Float F⦄ (r_override f_override : ℕ) where
  -- one turn of the loop, and the nominal speed of the block
  unfoldable pub profile_turn : Planner F → ℕ → F → Planner F × F
  profile_turn p i prev =
      let b = block_at p i in
      let nominal = plan_compute_profile_nominal_speed r_override f_override b in
      (
        record p { blocks = set p.blocks i (plan_compute_profile_parameters b nominal prev) },
        nominal,
      )

  unfoldable pub profile_pass : ℕ → Planner F → ℕ → F → Option (Planner F × F)
  profile_pass zero p i prev = if i == p.ring.head then some (p, prev) else none
  profile_pass (suc fuel) p i prev =
      let (turned, nominal) = profile_turn p i prev in
      let rest = profile_pass fuel turned (plan_next_block_index p.ring.size i) nominal in
      if i == p.ring.head then some (p, prev) else rest

  -- the end of the update
  abbrev pub profile_end : Option (Planner F × F) → Option (Planner F)
  profile_end none = none
  profile_end (some (p, prev)) =
      let q = record p { previous_nominal_speed = prev } in
      let again = plan_cycle_reinitialize q in if q.ring.tail == q.ring.head then some q else again

  -- SOME_LARGE_VALUE (FluidNC/src/NutsBolts.h) is 10 ^ 38.
  unfoldable pub plan_update_velocity_profile_parameters : Planner F → Option (Planner F)
  plan_update_velocity_profile_parameters p =
      profile_end
        (profile_pass p.ring.size p p.ring.tail (f.dec 100000000000000000000000000000000000000 0))

  profile_turn-ring : (p : Planner F) (i : ℕ) (prev : F) → (profile_turn p i prev).0.ring ≡ p.ring
  unfolding profile_turn
  profile_turn-ring p i prev = refl

  profile_pass_go :
      (fuel : ℕ) (p : Planner F) (i : ℕ) (prev : F)
      → (i == p.ring.head) ≡ false
      → profile_pass (suc fuel) p i prev
        ≡ profile_pass fuel
            (profile_turn p i prev).0
            (plan_next_block_index p.ring.size i)
            (profile_turn p i prev).1
  unfolding profile_pass
  profile_pass_go fuel p i prev before =
      if_false (i == p.ring.head) (some (p, prev))
        (profile_pass fuel (profile_turn p i prev).0 (plan_next_block_index p.ring.size i)
          (profile_turn p i prev).1)
        before

  profile_pass-ring :
      (fuel : ℕ) (p : Planner F) (i : ℕ) (prev : F)
      → IsRing p.ring
      → i < p.ring.size
      → dist p.ring.size i p.ring.head ≤ fuel
      → (q : Planner F) × (last : F) × (profile_pass fuel p i prev ≡ some (q, last))
        × (q.ring ≡ p.ring)
  unfolding profile_pass
  profile_pass-ring zero p i prev ring inside enough =
      let there : (i == p.ring.head) ≡ true = ground (arith, ring.head_in) in
      (p, prev, rw there refl, refl)
  profile_pass-ring (suc fuel) p i prev ring inside enough = elim (Bool-cases (i == p.ring.head)) [
    | inl there ↦ (p, prev, rw there refl, refl)
    | inr before ↦
        let same = profile_turn-ring p i prev in
        let nearer = dist-next p.ring.size i p.ring.head inside ring.head_in before in
        let on = plan_next_block_index p.ring.size i in
        let (q, last, ends, kept) =
          profile_pass-ring fuel (profile_turn p i prev).0 on (profile_turn p i prev).1
            (rw same ring) (rw same (next-lt p.ring.size i inside))
            (rw same (omega (arith, nearer))) in
        (q, last, profile_pass_go fuel p i prev before ∙ ends, kept ∙ same)
  ]

  profile_end-Ended :
      (q : Planner F) (last : F) → IsRing q.ring → Ended q (profile_end (some (q, last)))
  profile_end-Ended q last ring =
      let done : Planner F = record q { previous_nominal_speed = last } in
      if-elim (Ended q) (q.ring.tail == q.ring.head)
        (λ _. (done, refl, same_ring-IsPlanned q done ring refl))
        (λ _.
          follow q done (plan_cycle_reinitialize done) (plan_cycle_reinitialize done) refl
            (same_ring-IsPlanned q done ring refl) (reinitialize-Ended done ring))

  -- In a ring, the update ends with the fuel that it is given, the ring stays in order, and the ends of
  -- the queue stay where they are.
  pub update_velocity-Ended :
      (p : Planner F) → IsRing p.ring → Ended p (plan_update_velocity_profile_parameters p)
  unfolding plan_update_velocity_profile_parameters
  update_velocity-Ended p ring =
      let close = dist-lt p.ring.size p.ring.tail p.ring.head ring.tail_in ring.head_in in
      let (q, last, ends, same) =
        profile_pass-ring p.ring.size p p.ring.tail
          (f.dec 100000000000000000000000000000000000000 0) ring ring.tail_in
          (omega (arith, close)) in
      follow p q (profile_end (some (q, last))) _ (ap profile_end ends)
        (same_ring-IsPlanned p q ring same) (profile_end-Ended q last (rw same ring))
