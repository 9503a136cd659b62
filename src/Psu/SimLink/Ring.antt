-- ===== src/Psu/SimLink/Ring.antt =====
-- The ring of the simulated supply against the queue that the CAN link keeps.
use fluid_edm.Base.{
  ℕ, zero, suc, ◌+◌, ◌-◌, ◌%◌, ◌≡◌, ◌≢◌, ◌≤◌, ◌<◌, inl, inr, refl, ap, ◌∙◌, false, Option, none,
  some, List, [], ◌∷◌, ◌++◌, arith, leb, ◌==◌, if◌then◌else◌, get_or, set, length, drop, length-set,
  get_or-set_self, get_or-set_ne, Bool-cases,
}
use fluid_edm.Psu.Link.{Event}
use fluid_edm.Psu.CanLink.{push_event, pop_front}
use fluid_edm.Psu.SimLink.{SimPsuLink, evt_cap, unset, push_sim_event, pop_sim_event}

-- the n entries from position h on, wrapping at the end of the array
unfoldable pub read_ring : List Event → ℕ → ℕ → List Event
read_ring xs h zero = []
read_ring xs h (suc n) = get_or xs (h % evt_cap) unset ∷ read_ring xs (h + 1) n

length-read_ring : (xs : List Event) (h n : ℕ) → length (read_ring xs h n) ≡ n
unfolding read_ring
length-read_ring xs h zero = refl
length-read_ring xs h (suc n) = ap suc (length-read_ring xs (h + 1) n)

read_ring-set :
    (xs : List Event) (h n p : ℕ) (e : Event)
    → ((i : ℕ) → i < n → p ≢ (h + i) % evt_cap)
    → read_ring (set xs p e) h n ≡ read_ring xs h n
unfolding read_ring
read_ring-set xs h zero p e away = refl
read_ring-set xs h (suc n) p e away =
    let first : p ≢ h % evt_cap = λ q. away 0 (omega arith) (omega (arith, q)) in
    rw
      (
        get_or-set_ne xs p (h % evt_cap) e unset first,
        read_ring-set xs (h + 1) n p e (λ i small q. away (suc i) (omega arith) (omega (arith, q))),
      )
      refl

read_ring-snoc :
    (xs : List Event) (h n : ℕ)
    → read_ring xs h (suc n) ≡ read_ring xs h n ++ (get_or xs ((h + n) % evt_cap) unset ∷ [])
unfolding read_ring
read_ring-snoc xs h zero = let same : h + 0 ≡ h = omega arith in rw same refl
read_ring-snoc xs h (suc n) =
    let same : h + suc n ≡ h + 1 + n = omega arith in rw (same, read_ring-snoc xs (h + 1) n) refl

read_ring-wrap :
    (xs : List Event) (h k n : ℕ) → h % evt_cap ≡ k % evt_cap → read_ring xs h n ≡ read_ring xs k n
unfolding read_ring
read_ring-wrap xs h k zero e = refl
read_ring-wrap xs h k (suc n) e =
    rw (e, read_ring-wrap xs (h + 1) (k + 1) n (omega (arith, e))) refl

-- The ring is an array of `evt_cap` slots with a position and a count in range.
pub record IsRing {F : Type 0} (l : SimPsuLink F) : Type 0 where
  pub slots : length l.evts ≡ evt_cap
  pub head_fits : l.evt_head < evt_cap
  pub count_fits : l.evt_count ≤ evt_cap

-- writing behind n < 8 entries appends to them
write_behind :
    (xs : List Event) (h n : ℕ) (e : Event)
    → length xs ≡ evt_cap
    → n < evt_cap
    → read_ring (set xs ((h + n) % evt_cap) e) h (n + 1) ≡ read_ring xs h n ++ (e ∷ [])
write_behind xs h n e full small =
    let same : n + 1 ≡ suc n = omega arith in
    let inside : (h + n) % evt_cap < length xs = omega (arith, full) in
    rw
      (
        same,
        read_ring-snoc (set xs ((h + n) % evt_cap) e) h n,
        get_or-set_self xs ((h + n) % evt_cap) e unset inside,
        read_ring-set xs h n ((h + n) % evt_cap) e (λ i less q. omega (arith, less, q)),
      )
      refl

drop-ring :
    (xs : List Event) (h n : ℕ)
    → 0 < n
    → read_ring xs ((h + 1) % evt_cap) (n - 1) ≡ drop 1 (read_ring xs h n)
unfolding read_ring
drop-ring xs h zero some_left = elim some_left [ ]
drop-ring xs h (suc n) some_left =
    let same : suc n - 1 ≡ n = omega arith in
    rw same (read_ring-wrap xs ((h + 1) % evt_cap) (h + 1) n (omega arith))

module _ {F : Type 0} where
  -- the queued events, the oldest first
  abbrev pub queued : SimPsuLink F → List Event
  queued l = read_ring l.evts l.evt_head l.evt_count

  pub push-IsRing : (l : SimPsuLink F) (e : Event) → IsRing l → IsRing (push_sim_event l e)
  unfolding push_sim_event
  push-IsRing l e v =
      let full = leb evt_cap l.evt_count in
      let head = if full then (l.evt_head + 1) % evt_cap else l.evt_head in
      let count = if full then l.evt_count - 1 else l.evt_count in
      record {
        slots = length-set l.evts ((head + count) % evt_cap) e ∙ v.slots;
        head_fits = ground arith;
        count_fits = ground arith;
      }

  -- Queueing an event in the ring does to the queued events what the bounded queue of the CAN link does
  -- at a capacity of eight.
  pub queued-push :
      (l : SimPsuLink F) (e : Event)
      → IsRing l
      → queued (push_sim_event l e) ≡ push_event (queued l) evt_cap e
  unfolding push_sim_event push_event
  queued-push l e v = elim (Bool-cases (leb evt_cap l.evt_count)) [
    | inl full ↦
        let h = (l.evt_head + 1) % evt_cap in
        rw (length-read_ring l.evts l.evt_head l.evt_count, full)
          (write_behind l.evts h (l.evt_count - 1) e v.slots (omega (arith, v.count_fits))
            ∙ ap (λ (q : List Event). q ++ (e ∷ []))
                (drop-ring l.evts l.evt_head l.evt_count (ground (arith, full))))
    | inr room ↦
        rw (length-read_ring l.evts l.evt_head l.evt_count, room)
          (write_behind l.evts l.evt_head l.evt_count e v.slots (ground (arith, room)))
  ]

  pub pop-IsRing :
      (l l' : SimPsuLink F) (e : Event) → IsRing l → pop_sim_event l ≡ some (e, l') → IsRing l'
  unfolding pop_sim_event
  pop-IsRing l l' e v h = ground (arith, v.slots, v.head_fits, v.count_fits)

  -- what a taken event leaves
  abbrev pub taken : Option (Event × SimPsuLink F) → Option (Event × List Event)
  taken none = none
  taken (some (e, l')) = some (e, queued l')

  pop_cases :
      (l : SimPsuLink F) (n : ℕ)
      → IsRing l
      → l.evt_count ≡ n
      → taken (pop_sim_event l) ≡ pop_front (queued l)
  unfolding pop_sim_event pop_front read_ring
  pop_cases l zero v e = rw e refl
  pop_cases l (suc n) v e =
      let first : l.evt_head % evt_cap ≡ l.evt_head = omega (arith, v.head_fits) in
      let less : suc n - 1 ≡ n = omega arith in
      let rest : read_ring l.evts ((l.evt_head + 1) % evt_cap) n
          ≡ read_ring l.evts (l.evt_head + 1) n =
        read_ring-wrap l.evts ((l.evt_head + 1) % evt_cap) (l.evt_head + 1) n (omega arith) in
      let more : (suc n == 0) ≡ false = ground arith in rw e (rw (more, first, less, rest) refl)

  -- Taking an event from the ring takes the front of the queue and leaves the rest, and takes none
  -- when the queue is empty.
  pub queued-pop : (l : SimPsuLink F) → IsRing l → taken (pop_sim_event l) ≡ pop_front (queued l)
  queued-pop l v = pop_cases l l.evt_count v refl
