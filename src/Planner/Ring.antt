-- ===== src/Planner/Ring.antt =====
-- The indices of the ring, and how far apart they are.
use fluid_edm.Base.{
  ℕ, ◌+◌, ◌-◌, ◌≡◌, ◌≤◌, ◌<◌, ◌⊎◌, inl, inr, if-elim, refl, ◌==◌, false, if◌then◌else◌, leb, arith,
}
use fluid_edm.Planner.{
  Indices, plan_next_block_index, plan_prev_block_index, plan_reset_buffer,
  plan_discard_current_block, plan_check_full_buffer, plan_get_block_buffer_available, push_head,
}

-- how many steps forward lead from a to b
abbrev pub dist : ℕ → ℕ → ℕ → ℕ
dist size a b = if leb a b then b - a else b + size - a

-- The indices are in the ring, `next_head` follows the head, and the planned block is the tail or
-- another of the queued blocks.
pub record IsRing (r : Indices) : Type 0 where
  pub two : 2 ≤ r.size
  pub tail_in : r.tail < r.size
  pub head_in : r.head < r.size
  pub planned_in : r.planned < r.size
  pub next_is : r.next_head ≡ plan_next_block_index r.size r.head
  pub between : (r.planned ≡ r.tail) ⊎ (dist r.size r.tail r.planned < dist r.size r.tail r.head)

pub next-lt : (size i : ℕ) → i < size → plan_next_block_index size i < size
next-lt size i h = ground arith

pub prev-lt : (size i : ℕ) → i < size → plan_prev_block_index size i < size
prev-lt size i h = ground arith

pub dist-lt : (size a b : ℕ) → a < size → b < size → dist size a b < size
dist-lt size a b p q = ground arith

-- One step forward is one step nearer.
pub dist-next :
    (size a b : ℕ)
    → a < size
    → b < size
    → (a == b) ≡ false
    → dist size a b ≡ dist size (plan_next_block_index size a) b + 1
dist-next size a b p q h = ground arith

pub dist-prev :
    (size a b : ℕ)
    → a < size
    → b < size
    → (b == a) ≡ false
    → dist size a b ≡ dist size a (plan_prev_block_index size b) + 1
dist-prev size a b p q h = ground arith

pub reset-IsRing : (r : Indices) → 2 ≤ r.size → IsRing (plan_reset_buffer r)
reset-IsRing r h = record {
  two = h;
  tail_in = omega arith;
  head_in = omega arith;
  planned_in = omega arith;
  next_is = ground arith;
  between = inl refl;
}

pub discard-IsRing : (r : Indices) → IsRing r → IsRing (plan_discard_current_block r)
unfolding plan_discard_current_block
discard-IsRing r h =
    if-elim IsRing (r.head == r.tail) (λ empty. h)
      (λ queued. record {
        two = h.two;
        tail_in = next-lt r.size r.tail h.tail_in;
        head_in = h.head_in;
        planned_in =
            if-elim (λ (i : ℕ). i < r.size) (r.tail == r.planned)
              (λ _. next-lt r.size r.tail h.tail_in) (λ _. h.planned_in);
        next_is = h.next_is;
        between =
            if-elim
              (λ (i : ℕ).
                (i ≡ plan_next_block_index r.size r.tail)
                ⊎ (dist r.size (plan_next_block_index r.size r.tail) i
                    < dist r.size (plan_next_block_index r.size r.tail) r.head))
              (r.tail == r.planned) (λ _. inl refl)
              (λ other.
                let nearer =
                  dist-next r.size r.tail r.head h.tail_in h.head_in (ground (arith, queued)) in
                let closer = dist-next r.size r.tail r.planned h.tail_in h.planned_in other in
                elim h.between [
                  | inl same ↦ absurd (ground (arith, other, same))
                  | inr inside ↦ inr (omega (arith, nearer, closer, inside))
                ]);
      })

pub push-dist :
    (size t h : ℕ)
    → t < size
    → h < size
    → (t == plan_next_block_index size h) ≡ false
    → dist size t (plan_next_block_index size h) ≡ dist size t h + 1
push-dist size t h p q free = ground arith

pub push-IsRing : (r : Indices) → IsRing r → plan_check_full_buffer r ≡ false → IsRing (push_head r)
push-IsRing r h free =
    let next = plan_next_block_index r.size r.head in
    let next_in = next-lt r.size r.head h.head_in in
    let same = h.next_is in
    record {
      two = h.two;
      tail_in = h.tail_in;
      head_in = rw same next_in;
      planned_in = h.planned_in;
      next_is = refl;
      between =
          let further = push-dist r.size r.tail r.head h.tail_in h.head_in (rw (← same) free) in
          elim h.between [
            | inl at_tail ↦ inl at_tail
            | inr inside ↦ inr (rw same (omega (arith, further, inside)))
          ];
    }

pub push_head-dist :
    (r : Indices)
    → IsRing r
    → plan_check_full_buffer r ≡ false
    → dist r.size r.tail r.next_head ≡ dist r.size r.tail r.head + 1
push_head-dist r h free =
    let same = h.next_is in
    rw same (push-dist r.size r.tail r.head h.tail_in h.head_in (rw (← same) free))

-- In a ring, the available blocks and the queued ones are all but one, and the ring is full when none is
-- available.
pub available-IsRing :
    (r : Indices)
    → IsRing r
    → (plan_get_block_buffer_available r + dist r.size r.tail r.head + 1 ≡ r.size)
      × (plan_check_full_buffer r ≡ (plan_get_block_buffer_available r == 0))
available-IsRing r h =
    let next = h.next_is in
    (ground (arith, h.tail_in, h.head_in), rw next (ground (arith, h.tail_in, h.head_in, h.two)))
