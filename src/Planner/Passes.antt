-- ===== src/Planner/Passes.antt =====
-- How the two loops of `planner_recalculate` go over the ring.
use fluid_edm.Base.{
  ℕ, zero, suc, ◌≡◌, ◌≤◌, ◌<◌, ◌⊎◌, inl, inr, if-elim, if_false, Bool-cases, refl, ap, ◌∙◌, ◌==◌,
  ◌&&◌, ◌||◌, true, false, Option, none, some, if◌then◌else◌, arith,
}
use fluid_edm.Base.Float.{Float}
use fluid_edm.Planner.{
  Indices, Planner, plan_next_block_index, plan_prev_block_index, update_plan_block_parameters,
  tell_stepper, reverse_turn, reverse_pass, forward_turn, forward_pass, set_entry, block_at,
  speed_gain, same_float,
}
use fluid_edm.Planner.Ring.{dist, IsRing, next-lt, prev-lt, dist-next, dist-prev}

-- A plan has ended with `q`: the ring is in order, and its ends are those of `p`.
pub record IsPlanned {F : Type 0} (p q : Planner F) : Type 0 where
  pub in_order : IsRing q.ring
  pub same_size : q.ring.size ≡ p.ring.size
  pub same_tail : q.ring.tail ≡ p.ring.tail
  pub same_head : q.ring.head ≡ p.ring.head

pub same_ring-IsPlanned :
    {F : Type 0} (p q : Planner F) → IsRing p.ring → q.ring ≡ p.ring → IsPlanned p q
same_ring-IsPlanned p q ring same = record {
  in_order = rw same ring;
  same_size = ap (λ (r : Indices). r.size) same;
  same_tail = ap (λ (r : Indices). r.tail) same;
  same_head = ap (λ (r : Indices). r.head) same;
}

-- A pass ends, with the ring in order.
abbrev pub Ended : {F : Type 0} → Planner F → Option (Planner F) → Type 0
Ended {F} p e = (q : Planner F) × (e ≡ some q) × IsPlanned p q

pub ended :
    {F : Type 0} (p : Planner F) (e : Option (Planner F)) → IsRing p.ring → e ≡ some p → Ended p e
ended p e ring h = (p, h, same_ring-IsPlanned p p ring refl)

-- A pass that goes on from `t` after a turn from `p` ends as one from `p`.
pub follow :
    {F : Type 0} (p t : Planner F) (e e' : Option (Planner F))
    → e' ≡ e
    → IsPlanned p t
    → Ended t e
    → Ended p e'
follow p t e e' same turn (q, ends, planned) = (
  q,
  same ∙ ends,
  record {
    in_order = planned.in_order;
    same_size = planned.same_size ∙ turn.same_size;
    same_tail = planned.same_tail ∙ turn.same_tail;
    same_head = planned.same_head ∙ turn.same_head;
  },
)

-- where a forward pass stands
abbrev pub IsAhead : Indices → ℕ → ℕ → Type 0
IsAhead r i fuel =
    (i < r.size)
    × (dist r.size r.tail i ≤ dist r.size r.tail r.head)
    × (dist r.size i r.head ≤ fuel)

pub move-IsAhead :
    {F : Type 0} (p t : Planner F) (i fuel : ℕ)
    → IsPlanned p t
    → IsAhead p.ring i fuel
    → IsAhead t.ring i fuel
move-IsAhead p t i fuel turn h = rw (turn.same_size, turn.same_tail, turn.same_head) h

pub next-IsAhead :
    (r : Indices) (i fuel : ℕ)
    → IsRing r
    → IsAhead r i (suc fuel)
    → (i == r.head) ≡ false
    → IsAhead r (plan_next_block_index r.size i) fuel
      × (dist r.size r.tail i < dist r.size r.tail r.head)
next-IsAhead r i fuel ring (inside, queued, enough) before =
    let strict : dist r.size r.tail i < dist r.size r.tail r.head =
      ground (arith, before, ring.tail_in, ring.head_in) in
    let nearer = dist-next r.size i r.head inside ring.head_in before in
    let further : dist r.size r.tail (plan_next_block_index r.size i) ≤ dist r.size r.tail r.head =
      ground (arith, strict, ring.tail_in, ring.head_in) in
    ((next-lt r.size i inside, further, omega (arith, nearer)), strict)

pub planned-ahead :
    (r : Indices)
    → IsRing r
    → (r.head == r.tail) ≡ false
    → ((r.planned == r.head) ≡ false) × (dist r.size r.tail r.planned ≤ dist r.size r.tail r.head)
planned-ahead r ring queued = elim ring.between [
  | inl at_tail ↦ (ground (arith, at_tail, queued), ground (arith, at_tail))
  | inr inside ↦ (ground (arith, inside), omega (arith, inside))
]

module _ {F : Type 0} ⦃f : Float F⦄ where
  pub update-ring : (p : Planner F) → (update_plan_block_parameters p).ring ≡ p.ring
  update-ring p = prep-ring p p.prep_block refl
    where
      prep-ring :
          (p : Planner F) (o : Option ℕ)
          → p.prep_block ≡ o
          → (update_plan_block_parameters p).ring ≡ p.ring
      prep-ring p none h = rw h refl
      prep-ring p (some i) h = rw h refl

  pub tell-ring : (p : Planner F) (i : ℕ) → (tell_stepper p i).ring ≡ p.ring
  tell-ring p i =
      if-elim (λ (q : Planner F). q.ring ≡ p.ring) (i == p.ring.tail) (λ _. update-ring p)
        (λ _. refl)

  reverse_turn-ring : (p : Planner F) (current i : ℕ) → (reverse_turn p current i).ring ≡ p.ring
  unfolding reverse_turn
  reverse_turn-ring p current i = tell-ring p (plan_prev_block_index p.ring.size i)

  -- The reverse pass ends, and leaves the indices as they are.
  pub reverse_pass-ring :
      (fuel : ℕ) (p : Planner F) (current i : ℕ)
      → IsRing p.ring
      → i < p.ring.size
      → dist p.ring.size p.ring.planned i ≤ fuel
      → (q : Planner F) × (reverse_pass fuel p current i ≡ some q) × (q.ring ≡ p.ring)
  unfolding reverse_pass
  reverse_pass-ring zero p current i ring inside enough =
      let there : (i == p.ring.planned) ≡ true = ground (arith, ring.planned_in) in
      (p, rw there refl, refl)
  reverse_pass-ring (suc fuel) p current i ring inside enough =
      elim (Bool-cases (i == p.ring.planned)) [
        | inl there ↦ (p, rw there refl, refl)
        | inr before ↦
            let turned = reverse_turn p current i in
            let same = reverse_turn-ring p current i in
            let back = plan_prev_block_index p.ring.size i in
            let nearer = dist-prev p.ring.size p.ring.planned i ring.planned_in inside before in
            let (q, ends, kept) =
              reverse_pass-ring fuel turned i back (rw same ring)
                (rw same (prev-lt p.ring.size i inside)) (rw same (omega (arith, nearer))) in
            (q, rw (before, ends) refl, kept ∙ same)
      ]

  forward_turn-IsRing :
      (p : Planner F) (current i : ℕ)
      → IsRing p.ring
      → i < p.ring.size
      → dist p.ring.size p.ring.tail i < dist p.ring.size p.ring.tail p.ring.head
      → IsPlanned p (forward_turn p current i)
  unfolding forward_turn
  forward_turn-IsRing p current i ring inside queued =
      let b = block_at p current in
      let reached = f.add b.entry_speed_sqr (speed_gain b) in
      let n = block_at p i in
      let limits = f.lt b.entry_speed_sqr n.entry_speed_sqr && f.lt reached n.entry_speed_sqr in
      let q = if limits then set_entry p i reached else p in
      let moves =
        limits || same_float (block_at q i).entry_speed_sqr (block_at q i).max_entry_speed_sqr in
      record {
        in_order = record {
          two = ring.two;
          tail_in = ring.tail_in;
          head_in = ring.head_in;
          planned_in =
              if-elim (λ (k : ℕ). k < p.ring.size) moves (λ _. inside) (λ _. ring.planned_in);
          next_is = ring.next_is;
          between =
              if-elim
                (λ (k : ℕ).
                  (k ≡ p.ring.tail)
                  ⊎ (dist p.ring.size p.ring.tail k < dist p.ring.size p.ring.tail p.ring.head))
                moves (λ _. inr queued) (λ _. ring.between);
        };
        same_size = refl;
        same_tail = refl;
        same_head = refl;
      }

  forward_pass_go :
      (fuel : ℕ) (p : Planner F) (current i : ℕ)
      → (i == p.ring.head) ≡ false
      → forward_pass (suc fuel) p current i
        ≡ forward_pass fuel (forward_turn p current i) i (plan_next_block_index p.ring.size i)
  unfolding forward_pass
  forward_pass_go fuel p current i before =
      if_false (i == p.ring.head) (some p)
        (forward_pass fuel (forward_turn p current i) i (plan_next_block_index p.ring.size i))
        before

  pub forward_pass-Ended :
      (fuel : ℕ) (p : Planner F) (current i : ℕ)
      → IsRing p.ring
      → IsAhead p.ring i fuel
      → Ended p (forward_pass fuel p current i)
  unfolding forward_pass
  forward_pass-Ended zero p current i ring (inside, queued, enough) =
      let there : (i == p.ring.head) ≡ true = ground (arith, ring.head_in) in
      ended p _ ring (rw there refl)
  forward_pass-Ended (suc fuel) p current i ring ahead = elim (Bool-cases (i == p.ring.head)) [
    | inl there ↦ ended p _ ring (rw there refl)
    | inr before ↦
        let (on, strict) = next-IsAhead p.ring i fuel ring ahead before in
        let turn = forward_turn-IsRing p current i ring ahead.0 strict in
        follow p (forward_turn p current i) _ _ (forward_pass_go fuel p current i before) turn (
          forward_pass-Ended fuel (forward_turn p current i) i (plan_next_block_index p.ring.size i)
            turn.in_order
            (move-IsAhead p (forward_turn p current i) (plan_next_block_index p.ring.size i) fuel
              turn on))
  ]
