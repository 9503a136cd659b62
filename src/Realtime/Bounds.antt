-- ===== src/Realtime/Bounds.antt =====
-- The range of the overrides, whatever characters arrive.
use fluid_edm.Base.{
  ℕ, ◌+◌, ◌-◌, ◌%◌, ◌^◌, ◌≡◌, ◌≤◌, ◌⊎◌, inl, refl, List, [], ◌∷◌, ◌++◌, ltb, ◌==◌, ◌&&◌, not, arith,
  All, All-append, if-elim, if◌then◌else◌,
}
use native.Mathlib.Nat.{mod-eq_of_lt, add-mod_right}
use fluid_edm.Base.Int.{ℤ, pos, negsuc, ◌+ℤ◌, ◌≤ℤ◌}
use fluid_edm.Realtime.{
  State, Event, accessory_override, rapid_override, feed_override, spindle_override,
  override_default, commands, find_event, execute_realtime_command, is_jog, Machine, add_percent,
  next_percent, do_feed_override, do_rapid_override, do_spindle_override, do_accessory_override,
  spindle_stop_toggle, flood_toggle, mist_toggle, is_disable, in_motion_state, is_hold,
  takes_coolant,
}

-- `protocol_handle_events` on one event; the handlers of the others are not the overrides'
unfoldable pub run_event : ℕ → Machine → Event → Machine
run_event w m (feed_override i) = do_feed_override w m i
run_event w m (rapid_override v) = do_rapid_override w m v
run_event w m (spindle_override i) = do_spindle_override w m i
run_event w m (accessory_override a) = do_accessory_override m a
run_event w m _ = m

-- system_reset
unfoldable pub reset_overrides : Machine → Machine
reset_overrides m = record m {
  f_override = override_default;
  r_override = override_default;
  spindle_speed_ovr = override_default;
}

-- What a machine and its queue of events come to after a reset: a character arrives and its events are
-- queued, or lost in a full queue; the first event is handled; the machine is reset; and the other
-- parts change what is no override.
pub data Reach (w : ℕ) : Machine → List Event → Type 0 where
  start : (m : Machine) → Reach w (reset_overrides m) []
  key :
      {m : Machine} {q : List Event} (c : ℕ)
      → Reach w m q
      → Reach w m (q ++ execute_realtime_command m.state c)
  handle :
      {m : Machine} {e : Event} {q : List Event} → Reach w m (e ∷ q) → Reach w (run_event w m e) q
  reset : {m : Machine} {q : List Event} → Reach w m q → Reach w (reset_overrides m) q
  elsewhere :
      {m : Machine} {q : List Event} (n : Machine)
      → Reach w m q
      → n.f_override ≡ m.f_override
      → n.r_override ≡ m.r_override
      → n.spindle_speed_ovr ≡ m.spindle_speed_ovr
      → Reach w n q

abbrev pub IsPercent : ℕ → Type 0
IsPercent p = (10 ≤ p) × (p ≤ 200)

abbrev pub IsRapid : ℕ → Type 0
IsRapid p = (p ≡ 100) ⊎ (p ≡ 50) ⊎ (p ≡ 25) ⊎ (p ≡ 5)

pub record InRange (m : Machine) : Type 0 where
  pub feed : IsPercent m.f_override
  pub rapid : IsRapid m.r_override
  pub spindle : IsPercent m.spindle_speed_ovr

abbrev IsSent : Event → Type 0
IsSent (rapid_override v) = IsRapid v
IsSent _ = Unit

next_percent-IsPercent : (w p : ℕ) (i : ℤ) → IsPercent (next_percent w p i)
unfolding next_percent
next_percent-IsPercent w p i = ground arith

IsRapid-small : (M p : ℕ) → 256 ≤ M → IsRapid p → IsRapid (p % M)
IsRapid-small M p h r = rw (mod-eq_of_lt {n = p} {m = M} (omega (arith, h, r))) r

find_event-IsSent :
    (table : List (ℕ × Event)) (c : ℕ)
    → All (λ e. IsSent e.1) table
    → All IsSent (find_event table c)
find_event-IsSent [] c _ = tt
find_event-IsSent ((code, e) ∷ rest) c (h, hs) =
    if-elim (All IsSent) (c == code) (λ _. (h, tt)) (λ _. find_event-IsSent rest c hs)

commands-IsSent : All (λ e. IsSent e.1) commands
commands-IsSent = ground arith

execute-IsSent : (s : State) (c : ℕ) → All IsSent (execute_realtime_command s c)
unfolding execute_realtime_command
execute-IsSent s c =
    if-elim (All IsSent) (c == 0x85)
      (λ _. if-elim (All IsSent) (is_jog s) (λ _. (tt, tt)) (λ _. tt))
      (λ _. find_event-IsSent commands c commands-IsSent)

-- Only the overrides count.
InRange-same :
    {m n : Machine}
    → InRange m
    → n.f_override ≡ m.f_override
    → n.r_override ≡ m.r_override
    → n.spindle_speed_ovr ≡ m.spindle_speed_ovr
    → InRange n
InRange-same h f r p = record { feed = rw f h.feed; rapid = rw r h.rapid; spindle = rw p h.spindle }

InRange-reset : (m : Machine) → InRange (reset_overrides m)
unfolding reset_overrides
InRange-reset m = record { feed = omega arith; rapid = inl refl; spindle = omega arith }

do_accessory-InRange : (m : Machine) (a : ℕ) → InRange m → InRange (do_accessory_override m a)
unfolding do_accessory_override
do_accessory-InRange m a h =
    if-elim InRange (a == spindle_stop_toggle)
      (λ _. if-elim InRange (is_hold m.state) (λ _. InRange-same h refl refl refl) (λ _. h))
      (λ _.
        if-elim InRange (a == flood_toggle)
          (λ _.
            if-elim InRange (m.has_flood && takes_coolant m.state)
              (λ _. InRange-same h refl refl refl) (λ _. h))
          (λ _.
            if-elim InRange (a == mist_toggle)
              (λ _.
                if-elim InRange (m.has_mist && takes_coolant m.state)
                  (λ _. InRange-same h refl refl refl) (λ _. h))
              (λ _. h)))

module _ (w : ℕ) (wide : 256 ≤ 2 ^ w) where
  run_event-InRange : (m : Machine) (e : Event) → IsSent e → InRange m → InRange (run_event w m e)
  unfolding run_event do_feed_override do_rapid_override do_spindle_override
  run_event-InRange m (feed_override i) s h =
      let q = next_percent-IsPercent w m.f_override i in
      if-elim InRange (next_percent w m.f_override i == m.f_override) (λ _. h)
        (λ _. record { feed = q; rapid = h.rapid; spindle = h.spindle })
  run_event-InRange m (rapid_override v) s h =
      let q = IsRapid-small (2 ^ w) v wide s in
      if-elim InRange (v % 2 ^ w == m.r_override) (λ _. h)
        (λ _. record { feed = h.feed; rapid = q; spindle = h.spindle })
  run_event-InRange m (spindle_override i) s h =
      let q = next_percent-IsPercent w m.spindle_speed_ovr i in
      if-elim InRange (next_percent w m.spindle_speed_ovr i == m.spindle_speed_ovr) (λ _. h)
        (λ _.
          if-elim InRange (not (is_disable m.modal_spindle) && not (in_motion_state m))
            (λ _. record { feed = h.feed; rapid = h.rapid; spindle = q })
            (λ _. record { feed = h.feed; rapid = h.rapid; spindle = q }))
  run_event-InRange m (accessory_override a) s h = do_accessory-InRange m a h
  run_event-InRange m _ s h = h

  reach-IsSent : {m : Machine} {q : List Event} → Reach w m q → InRange m × All IsSent q
  reach-IsSent (start m) = (InRange-reset m, tt)
  reach-IsSent (key {m} {q} c h) =
      let (r, s) = reach-IsSent h in
      (r, All-append IsSent q (execute_realtime_command m.state c) s (execute-IsSent m.state c))
  reach-IsSent (handle {m} {e} {q} h) =
      let (r, ss) = reach-IsSent h in (run_event-InRange m e ss.0 r, ss.1)
  reach-IsSent (reset {m} {q} h) = (InRange-reset m, (reach-IsSent h).1)
  reach-IsSent (elsewhere n h f r p) = let (k, s) = reach-IsSent h in (InRange-same k f r p, s)

  -- When a `Percent` has at least 8 bits, whatever characters arrive after a reset, in whatever states,
  -- and in whatever order their events are handled: the overrides of feed and spindle stay from 10%
  -- to 200%, and that of rapids is 100%, 50%, 25% or 5%.
  pub reach-InRange : {m : Machine} {q : List Event} → Reach w m q → InRange m
  reach-InRange h = (reach-IsSent h).0

-- The exact sum of a percentage and an increment, kept from 10 to 200.
abbrev pub kept : ℤ → ℕ
kept (negsuc n) = 10
kept (pos n) = if ltb 200 n then 200 else if ltb n 10 then 10 else n

down_exact : (M p n : ℕ) → 256 ≤ M → IsPercent p → n ≤ 9 → (p + M - (n + 1) % M) % M ≡ p - (n + 1)
down_exact M p n wide r h =
    let small : (n + 1) % M ≡ n + 1 = mod-eq_of_lt {n = n + 1} {m = M} (omega (arith, h, wide)) in
    let over : p + M - (n + 1) ≡ p - (n + 1) + M = omega (arith, r, h) in
    rw (small, over)
      (rw (add-mod_right (p - (n + 1)) M)
        (mod-eq_of_lt {n = p - (n + 1)} {m = M} (omega (arith, r, wide))))

up_exact : (M p n : ℕ) → 256 ≤ M → IsPercent p → n ≤ 55 → (p + n) % M ≡ p + n
up_exact M p n wide r h = mod-eq_of_lt {n = p + n} {m = M} (omega (arith, r, h, wide))

-- When a `Percent` has at least 8 bits, an increment from -10 to 55 takes a percentage in range to the
-- exact sum, kept in the range: the wrap-around of the unsigned type does not show.
pub next_percent-kept :
    (w p : ℕ) (i : ℤ)
    → 256 ≤ 2 ^ w
    → IsPercent p
    → negsuc 9 ≤ℤ i
    → i ≤ℤ pos 55
    → next_percent w p i ≡ kept (pos p +ℤ i)
unfolding next_percent add_percent ◌+ℤ◌
next_percent-kept w p (pos n) wide r a b =
    rw (up_exact (2 ^ w) p n wide r (omega (arith, b))) (ground (arith, b))
next_percent-kept w p (negsuc n) wide r a b =
    rw (down_exact (2 ^ w) p n wide r (omega (arith, a))) (ground (arith, a, r))
