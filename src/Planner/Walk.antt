-- ===== src/Planner/Walk.antt =====
-- The plan as a whole, and the queueing of a block.
use fluid_edm.Base.{
  ℕ, ◌+◌, ◌≡◌, ◌<◌, inl, if-elim, if_false, refl, ap, ◌∙◌, ◌==◌, false, Option, some, arith, set,
}
use fluid_edm.Base.Float.{Float}
use fluid_edm.Planner.{
  Indices, Planner, PlanBlock, plan_next_block_index, plan_prev_block_index,
  update_plan_block_parameters, tell_stepper, reverse_from, forward_from, planner_recalculate,
  plan_cycle_reinitialize, with_block, queue_block, plan_check_full_buffer, set_entry, last_entry,
  block_at,
}
use fluid_edm.Planner.Ring.{dist, IsRing, prev-lt, dist-lt, push_head-dist, push-IsRing}
use fluid_edm.Planner.Passes.{
  IsPlanned, Ended, same_ring-IsPlanned, ended, follow, planned-ahead, next-IsAhead, update-ring,
  tell-ring, reverse_pass-ring, forward_pass-Ended,
}

module _ {F : Type 0} ⦃f : Float F⦄ where
  reverse_from-ring :
      (p : Planner F) (last : ℕ)
      → IsRing p.ring
      → last < p.ring.size
      → (q : Planner F) × (reverse_from p last ≡ some q) × (q.ring ≡ p.ring)
  unfolding reverse_from
  reverse_from-ring p last ring inside =
      let before = plan_prev_block_index p.ring.size last in
      let last_planned = set_entry p last (last_entry (block_at p last)) in
      let before_in = prev-lt p.ring.size last inside in
      let close = dist-lt p.ring.size p.ring.planned before ring.planned_in before_in in
      if-elim (λ e. (q : Planner F) × (e ≡ some q) × (q.ring ≡ p.ring)) (before == p.ring.planned)
        (λ _. (tell_stepper last_planned before, refl, tell-ring last_planned before))
        (λ _.
          reverse_pass-ring p.ring.size last_planned last before ring before_in
            (omega (arith, close)))

  forward_from-Ended :
      (p : Planner F)
      → IsRing p.ring
      → (p.ring.head == p.ring.tail) ≡ false
      → Ended p (forward_from (some p))
  forward_from-Ended p ring queued =
      let r = p.ring in
      let (apart, within) = planned-ahead r ring queued in
      let close = dist-lt r.size r.planned r.head ring.planned_in ring.head_in in
      let (on, strict) =
        next-IsAhead r r.planned r.size ring (ring.planned_in, within, omega (arith, close))
          apart in
      forward_pass-Ended r.size p r.planned (plan_next_block_index r.size r.planned) ring on

  both-Ended :
      (p q : Planner F) (e : Option (Planner F))
      → IsRing p.ring
      → e ≡ some q
      → q.ring ≡ p.ring
      → Ended q (forward_from (some q))
      → Ended p (forward_from e)
  both-Ended p q e ring ends same done =
      follow p q (forward_from (some q)) (forward_from e) (ap forward_from ends)
        (same_ring-IsPlanned p q ring same) done

  -- In a ring, both passes end with the fuel that they are given, the ring stays in order, and the ends
  -- of the queue stay where they are.
  pub planner_recalculate-Ended : (p : Planner F) → IsRing p.ring → Ended p (planner_recalculate p)
  unfolding planner_recalculate
  planner_recalculate-Ended p ring =
      let last = plan_prev_block_index p.ring.size p.ring.head in
      if-elim (Ended p) (p.ring.head == p.ring.tail) (λ _. ended p (some p) ring refl)
        (λ queued.
          if-elim (Ended p) (last == p.ring.planned) (λ _. ended p (some p) ring refl)
            (λ _.
              let (q, ends, same) =
                reverse_from-ring p last ring (prev-lt p.ring.size p.ring.head ring.head_in) in
              both-Ended p q (reverse_from p last) ring ends same
                (forward_from-Ended q (rw same ring) (rw same queued))))

  pub reinitialize-Ended : (p : Planner F) → IsRing p.ring → Ended p (plan_cycle_reinitialize p)
  reinitialize-Ended p ring =
      let told = update_plan_block_parameters p in
      let same = update-ring p in
      let kept : IsRing told.ring = rw same ring in
      let back : Planner F = record told {
        ring = record (told.ring) { planned = told.ring.tail };
      } in
      let back_ring : IsRing back.ring = record {
        two = kept.two;
        tail_in = kept.tail_in;
        head_in = kept.head_in;
        planned_in = kept.tail_in;
        next_is = kept.next_is;
        between = inl refl;
      } in
      let turn : IsPlanned p back = record {
        in_order = back_ring;
        same_size = ap (λ (r : Indices). r.size) same;
        same_tail = ap (λ (r : Indices). r.tail) same;
        same_head = ap (λ (r : Indices). r.head) same;
      } in
      follow p back _ _ refl turn (planner_recalculate-Ended back back_ring)

  -- A prepared block of an ordinary motion, given to a ring that is not full, is queued: the passes of
  -- the plan end, the ring stays in order, the tail stays, and there is one block more.
  pub queue_block-IsRing :
      (r_override f_override : ℕ) (p : Planner F) (b : PlanBlock F)
      → IsRing p.ring
      → plan_check_full_buffer p.ring ≡ false
      → b.system_motion ≡ false
      → (q : Planner F) × (queue_block r_override f_override p b ≡ some q)
        × IsRing q.ring
        × (q.ring.tail ≡ p.ring.tail)
        × (dist q.ring.size q.ring.tail q.ring.head ≡ dist p.ring.size p.ring.tail p.ring.head + 1)
  unfolding with_block queue_block
  queue_block-IsRing r_override f_override p b ring free ordinary =
      let queued = with_block r_override f_override p b in
      let (q, ends, planned) = planner_recalculate-Ended queued (push-IsRing p.ring ring free) in
      (
        q,
        if_false b.system_motion (some (record p { blocks = set p.blocks p.ring.head b }))
              (planner_recalculate queued) ordinary
            ∙ ends,
        planned.in_order,
        planned.same_tail,
        grown q queued planned ∙ push_head-dist p.ring ring free,
      )
    where
      grown :
          (q queued : Planner F)
          → IsPlanned queued q
          → dist q.ring.size q.ring.tail q.ring.head
            ≡ dist queued.ring.size queued.ring.tail queued.ring.head
      grown q queued planned = rw (planned.same_size, planned.same_tail, planned.same_head) refl
