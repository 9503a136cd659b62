-- ===== src/Planner.antt =====
-- FluidNC/src/Planner.cpp and Planner.h: the ring of planned blocks. The geometry of a line, which
-- `plan_buffer_line` computes first, is an argument: the block it has prepared. Loops run on fuel; none
-- is fuel that runs out. Of FluidNC/src/Stepper.cpp, what the planner tells the stepper.
pub mod Ring
pub mod Passes
pub mod Walk
pub mod Profile
pub mod Reach
use fluid_edm.Base.{
  ℕ, zero, suc, ◌+◌, ◌-◌, ◌==◌, Bool, true, false, not, ◌&&◌, ◌||◌, Option, none, some, List,
  if◌then◌else◌, leb, set, get_or,
}
use fluid_edm.Base.Float.{Float, nought, of_ℕ}

pub record PlanBlock (F : Type 0) : Type 0 where
  pub rapid_motion : Bool
  pub system_motion : Bool
  pub no_feed_override : Bool
  pub entry_speed_sqr : F
  pub max_entry_speed_sqr : F
  pub acceleration : F
  pub millimeters : F
  pub max_junction_speed_sqr : F
  pub rapid_rate : F
  pub programmed_rate : F

-- The indices of the ring, and `planner_blocks` of the configuration.
pub record Indices : Type 0 where
  pub size : ℕ
  pub tail : ℕ
  pub head : ℕ
  pub next_head : ℕ
  pub planned : ℕ

-- `prep_block`, `current_speed` and `recalculate` are the stepper's: the block it executes, the speed it
-- has there, and whether it has to compute the rest of the block again.
pub record Planner (F : Type 0) : Type 0 where
  pub ring : Indices
  pub blocks : List (PlanBlock F)
  pub previous_nominal_speed : F
  pub prep_block : Option ℕ
  pub current_speed : F
  pub recalculate : Bool

abbrev pub plan_next_block_index : ℕ → ℕ → ℕ
plan_next_block_index size i = if i + 1 == size then 0 else i + 1

abbrev pub plan_prev_block_index : ℕ → ℕ → ℕ
plan_prev_block_index size i = if i == 0 then size - 1 else i - 1

abbrev pub plan_reset_buffer : Indices → Indices
plan_reset_buffer r = record r { tail = 0; head = 0; next_head = 1; planned = 0 }

unfoldable pub plan_discard_current_block : Indices → Indices
plan_discard_current_block r =
    let i = plan_next_block_index r.size r.tail in
    if r.head == r.tail
    then r
    else record r { tail = i; planned = if r.tail == r.planned then i else r.planned }

abbrev pub plan_check_full_buffer : Indices → Bool
plan_check_full_buffer r = r.tail == r.next_head

abbrev pub plan_get_block_buffer_available : Indices → ℕ
plan_get_block_buffer_available r =
    if leb r.tail r.head then r.size - 1 - (r.head - r.tail) else r.tail - r.head - 1

-- the new head of `plan_buffer_line`
abbrev pub push_head : Indices → Indices
push_head r = record r { head = r.next_head; next_head = plan_next_block_index r.size r.next_head }

module _ {F : Type 0} ⦃f : Float F⦄ where
  open f use {dec, add, mul, lt, le}

  -- what an index out of range would read; no operation reads one
  abbrev pub no_block : PlanBlock F
  no_block = record {
    rapid_motion = false;
    system_motion = false;
    no_feed_override = false;
    entry_speed_sqr = nought;
    max_entry_speed_sqr = nought;
    acceleration = nought;
    millimeters = nought;
    max_junction_speed_sqr = nought;
    rapid_rate = nought;
    programmed_rate = nought;
  }

  abbrev pub block_at : Planner F → ℕ → PlanBlock F
  block_at p i = get_or p.blocks i no_block

  abbrev pub set_entry : Planner F → ℕ → F → Planner F
  set_entry p i v = record p {
    blocks = set p.blocks i (record (block_at p i) { entry_speed_sqr = v });
  }

  abbrev pub same_float : F → F → Bool
  same_float a b = le a b && le b a

  -- `Stepper::update_plan_block_parameters`
  abbrev pub update_plan_block_parameters : Planner F → Planner F
  update_plan_block_parameters p = elim p.prep_block [
    | none ↦ p
    | some i ↦ record (set_entry p i (mul p.current_speed p.current_speed)) {
      prep_block = none;
      recalculate = true;
    }
  ]

  -- 2 * acceleration * millimeters
  abbrev pub speed_gain : PlanBlock F → F
  speed_gain b = mul (mul (dec 2 0) b.acceleration) b.millimeters

  -- `MIN(max_entry_speed_sqr, 2 * acceleration * millimeters)`
  abbrev pub last_entry : PlanBlock F → F
  last_entry b =
      if lt b.max_entry_speed_sqr (speed_gain b) then b.max_entry_speed_sqr else speed_gain b

  -- the entry speed of a block from that of the next
  abbrev pub reverse_entry : PlanBlock F → PlanBlock F → F
  reverse_entry current next =
      let reached = add next.entry_speed_sqr (speed_gain current) in
      if same_float current.entry_speed_sqr current.max_entry_speed_sqr
      then current.entry_speed_sqr
      else if lt reached current.max_entry_speed_sqr
      then reached
      else current.max_entry_speed_sqr

  -- `if (block_index == block_buffer_tail) Stepper::update_plan_block_parameters();`
  abbrev pub tell_stepper : Planner F → ℕ → Planner F
  tell_stepper p i = if i == p.ring.tail then update_plan_block_parameters p else p

  -- One turn of the reverse pass, from the block `current` to the block i before it.
  unfoldable pub reverse_turn : Planner F → ℕ → ℕ → Planner F
  reverse_turn p current i =
      let told = tell_stepper p (plan_prev_block_index p.ring.size i) in
      set_entry told i (reverse_entry (block_at told i) (block_at told current))

  unfoldable pub reverse_pass : ℕ → Planner F → ℕ → ℕ → Option (Planner F)
  reverse_pass zero p current i = if i == p.ring.planned then some p else none
  reverse_pass (suc fuel) p current i =
      let rest =
        reverse_pass fuel (reverse_turn p current i) i (plan_prev_block_index p.ring.size i) in
      if i == p.ring.planned then some p else rest

  -- One turn of the forward pass, from the block `current` to the block i after it.
  unfoldable pub forward_turn : Planner F → ℕ → ℕ → Planner F
  forward_turn p current i =
      let b = block_at p current in
      let n = block_at p i in
      let reached = add b.entry_speed_sqr (speed_gain b) in
      let limits = lt b.entry_speed_sqr n.entry_speed_sqr && lt reached n.entry_speed_sqr in
      let p' = if limits then set_entry p i reached else p in
      let at_max = same_float (block_at p' i).entry_speed_sqr (block_at p' i).max_entry_speed_sqr in
      record p' {
        ring = record (p.ring) { planned = if limits || at_max then i else p.ring.planned };
      }

  unfoldable pub forward_pass : ℕ → Planner F → ℕ → ℕ → Option (Planner F)
  forward_pass zero p current i = if i == p.ring.head then some p else none
  forward_pass (suc fuel) p current i =
      let rest =
        forward_pass fuel (forward_turn p current i) i (plan_next_block_index p.ring.size i) in
      if i == p.ring.head then some p else rest

  -- the reverse pass, from the last block `last`
  unfoldable pub reverse_from : Planner F → ℕ → Option (Planner F)
  reverse_from p last =
      let before = plan_prev_block_index p.ring.size last in
      let ended = set_entry p last (last_entry (block_at p last)) in
      let reversed = reverse_pass p.ring.size ended last before in
      if before == p.ring.planned then some (tell_stepper ended before) else reversed

  -- the forward pass, from the planned block
  abbrev pub forward_from : Option (Planner F) → Option (Planner F)
  forward_from none = none
  forward_from (some q) =
      forward_pass q.ring.size q q.ring.planned (plan_next_block_index q.ring.size q.ring.planned)

  unfoldable pub planner_recalculate : Planner F → Option (Planner F)
  planner_recalculate p =
      let last = plan_prev_block_index p.ring.size p.ring.head in
      let planned = forward_from (reverse_from p last) in
      if p.ring.head == p.ring.tail
      then some p
      else if last == p.ring.planned
      then some p
      else planned

  abbrev pub plan_cycle_reinitialize : Planner F → Option (Planner F)
  plan_cycle_reinitialize p =
      let told = update_plan_block_parameters p in
      planner_recalculate (record told { ring = record (told.ring) { planned = told.ring.tail } })

  abbrev pub plan_get_exec_block_exit_speed_sqr : Planner F → F
  plan_get_exec_block_exit_speed_sqr p =
      let i = plan_next_block_index p.ring.size p.ring.tail in
      if i == p.ring.head then nought else (block_at p i).entry_speed_sqr

  -- with the overrides of rapid and of feed motion, in percent
  unfoldable pub plan_compute_profile_nominal_speed : ℕ → ℕ → PlanBlock F → F
  plan_compute_profile_nominal_speed r_override f_override b =
      let rapid = mul b.programmed_rate (mul (dec 1 2) (of_ℕ r_override)) in
      let feed =
        if b.no_feed_override
        then b.programmed_rate
        else mul b.programmed_rate (mul (dec 1 2) (of_ℕ f_override)) in
      let nominal =
        if b.rapid_motion then rapid else if lt b.rapid_rate feed then b.rapid_rate else feed in
      if lt (dec 1 0) nominal then nominal else dec 1 0

  unfoldable pub plan_compute_profile_parameters : PlanBlock F → F → F → PlanBlock F
  plan_compute_profile_parameters b nominal prev =
      let slower = if lt prev nominal then mul prev prev else mul nominal nominal in
      record b {
        max_entry_speed_sqr =
            if lt b.max_junction_speed_sqr slower then b.max_junction_speed_sqr else slower;
      }

  -- the planner with a prepared block at its head, before the plan
  unfoldable pub with_block : ℕ → ℕ → Planner F → PlanBlock F → Planner F
  with_block r_override f_override p b =
      let nominal = plan_compute_profile_nominal_speed r_override f_override b in
      let profiled = plan_compute_profile_parameters b nominal p.previous_nominal_speed in
      record p {
        blocks = set p.blocks p.ring.head profiled;
        previous_nominal_speed = nominal;
        ring = push_head p.ring;
      }

  -- The end of `plan_buffer_line`, with the block it has prepared.
  unfoldable pub queue_block : ℕ → ℕ → Planner F → PlanBlock F → Option (Planner F)
  queue_block r_override f_override p b =
      let planned = planner_recalculate (with_block r_override f_override p b) in
      if b.system_motion then some (record p { blocks = set p.blocks p.ring.head b }) else planned
