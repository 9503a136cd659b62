-- ===== src/Tests/Planner.antt =====
-- The planner on a ring of four blocks; `float` runs in whole millionths.
use fluid_edm.Base.{◌+◌, ◌≡◌, refl, false, none, some, [], ◌∷◌, ◌==◌, arith}
use fluid_edm.Base.Int.{ℤ, pos}
use fluid_edm.Base.Fixed.{micros}
use fluid_edm.Planner.{
  Indices, Planner, PlanBlock, no_block, plan_reset_buffer, plan_check_full_buffer,
  plan_get_block_buffer_available, plan_discard_current_block, queue_block, planner_recalculate,
  with_block,
}
use fluid_edm.Planner.Ring.{dist, IsRing, reset-IsRing}
use fluid_edm.Planner.Walk.{queue_block-IsRing}
use fluid_edm.Planner.Reach.{here, next, discards, queues, reach-reset-IsRing}

abbrev four : Indices
four = record { size = 4; tail = 2; head = 2; next_head = 3; planned = 2 }

abbrev planner : Planner ℤ
planner = record {
  ring = four;
  blocks = no_block ∷ no_block ∷ no_block ∷ no_block ∷ [];
  previous_nominal_speed = pos 0;
  prep_block = none;
  current_speed = pos 0;
  recalculate = false;
}

abbrev line : PlanBlock ℤ
line = record no_block { programmed_rate = pos 60_000_000; rapid_rate = pos 90_000_000 }

abbrev cleared : Planner ℤ
cleared = record planner { ring = plan_reset_buffer four }

queue_block-IsRing_example :
    (q : Planner ℤ) × (queue_block 100 100 cleared line ≡ some q)
    × IsRing q.ring
    × (q.ring.tail ≡ 0)
    × (dist q.ring.size q.ring.tail q.ring.head ≡ dist 4 0 0 + 1)
queue_block-IsRing_example =
    queue_block-IsRing 100 100 cleared line (reset-IsRing four (omega arith)) refl refl

-- the planner with the line, and after the line is done
abbrev loaded : Planner ℤ
loaded = elim (queue_block 100 100 cleared line) [ none ↦ cleared | some q ↦ q ]

abbrev unloaded : Planner ℤ
unloaded = record loaded { ring = plan_discard_current_block (loaded.ring) }

line_queued : queue_block 100 100 cleared line ≡ some loaded
unfolding queue_block planner_recalculate with_block
line_queued = refl

reach-reset-IsRing_example :
    IsRing unloaded.ring
    × (plan_get_block_buffer_available unloaded.ring
          + dist unloaded.ring.size unloaded.ring.tail unloaded.ring.head
          + 1
        ≡ unloaded.ring.size)
    × (plan_check_full_buffer unloaded.ring ≡ (plan_get_block_buffer_available unloaded.ring == 0))
reach-reset-IsRing_example = reach-reset-IsRing planner unloaded (omega arith) (
    next cleared loaded unloaded
      (next cleared cleared loaded (here cleared)
        (queues 100 100 cleared loaded line refl refl line_queued))
      (discards loaded))
