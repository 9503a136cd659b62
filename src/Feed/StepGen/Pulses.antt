-- ===== src/Feed/StepGen/Pulses.antt =====
-- The rate of the pulses, and their number.
use fluid_edm.Base.{
  ℕ, zero, suc, ◌+◌, ◌*◌, ◌/◌, ◌%◌, ◌^◌, ◌<◌, ◌≤◌, ◌≡◌, ◌⊎◌, inl, inr, refl, ap, ◌∙◌, Bool, true,
  false, not, if◌then◌else◌, ◌==◌, ◌&&◌, arith,
}
use native.Mathlib.Nat.{div-eq_of_lt, lt-mul-div-succ, mul-div-le}
use fluid_edm.Base.Int.{ℤ, pos, ltb_ℤ}
use fluid_edm.Feed.StepGen.{StepGen, magnitude, set_rate, on_timer}

zero-or-more : (n : ℕ) → (n ≡ 0) ⊎ (0 < n)
zero-or-more zero = inl refl
zero-or-more (suc n) = inr (omega arith)

nonzero_half :
    (steps : ℕ)
    → 0 < steps
    → steps ≤ 500000
    → let half = 1000000 / (2 * steps) in
      (half * 2 * steps ≤ 1000000) × (1000000 < (half + 1) * 2 * steps) × (0 < half)
nonzero_half steps some_steps most =
    let half : ℕ = 1000000 / (2 * steps) in
    let below : 2 * steps * half ≤ 1000000 = mul-div-le 1000000 (2 * steps) in
    let above : 1000000 < 2 * steps * (half + 1) = lt-mul-div-succ 1000000 (omega arith) in
    let swap : half * 2 * steps ≡ 2 * steps * half = omega arith in
    let swap_next : (half + 1) * 2 * steps ≡ 2 * steps * (half + 1) = omega arith in
    let positive : 0 < half = elim (zero-or-more half) [
      | inl parked ↦ absurd (omega (arith, ap (λ (t : ℕ). 2 * steps * (t + 1)) parked))
      | inr ticks ↦ ticks
    ] in
    (rw swap below, rw swap_next above, positive)

-- A generator at rate zero is parked. At any other rate whose magnitude is below 2^31 it is not, and
-- a full step of two half periods takes at most a second for all steps, with an error of less than
-- two ticks for each of them, up to half a million steps per second; above, the half period is one tick.
pub set_rate-half :
    (g : StepGen) (rate : ℤ)
    → magnitude rate < 2 ^ 31
    → let half = (set_rate g rate).half_period_ticks in
      let steps = magnitude rate in
      (steps ≡ 0 → half ≡ 0)
      × (0 < steps
          → steps ≤ 500000
          → (half * 2 * steps ≤ 1000000) × (1000000 < (half + 1) * 2 * steps))
      × (500000 < steps → half ≡ 1)
      × ((set_rate g rate).dir_pin ≡ ltb_ℤ rate (pos 0))
unfolding set_rate
set_rate-half g rate small =
    let wrap : 2 * magnitude rate % 2 ^ 32 ≡ 2 * magnitude rate = omega arith in
    rw wrap (
      λ e. ground arith,
      λ some_steps most.
          let (below, above, positive) = nonzero_half (magnitude rate) some_steps most in
          let moving : (magnitude rate == 0) ≡ false = ground arith in
          let ticking : (1000000 / (2 * magnitude rate) == 0) ≡ false = ground (arith, positive) in
          rw (moving, ticking) (below, above),
      λ many.
          let none : 1000000 / (2 * magnitude rate) ≡ 0 = div-eq_of_lt (omega arith) in
          let moving : (magnitude rate == 0) ≡ false = ground arith in rw (moving, none) refl,
      refl,
    )

-- the state after a number of interrupts, and how many of them raised STEP
unfoldable pub interrupts : ℕ → StepGen → ℕ × StepGen
interrupts zero g = (0, g)
interrupts (suc n) g =
    let next = on_timer g in
    let (rises, last) = interrupts n next in
    ((if next.step_pin && not g.step_pin then suc rises else rises), last)

-- a generator with STEP at a level, both recorded and at the pin
abbrev pub at_level : StepGen → Bool → StepGen
at_level g level = record g { step_level = level; step_pin = level }

on_timer-at_level :
    (g : StepGen) (level : Bool)
    → 0 < g.half_period_ticks
    → on_timer (at_level g level) ≡ at_level g (not level)
unfolding on_timer
on_timer-at_level g level ticking =
    let moving : (g.half_period_ticks == 0) ≡ false = ground (arith, ticking) in rw moving refl

interrupts-two :
    (g : StepGen) (rest : ℕ) (level : Bool)
    → 0 < g.half_period_ticks
    → interrupts (suc (suc rest)) (at_level g level)
      ≡ (let (rises, last) = interrupts rest (at_level g level) in (suc rises, last))
unfolding interrupts
interrupts-two g rest true ticking =
    rw (on_timer-at_level g true ticking, on_timer-at_level g false ticking) refl
interrupts-two g rest false ticking =
    rw (on_timer-at_level g false ticking, on_timer-at_level g true ticking) refl

abbrev pub twice : ℕ → ℕ
twice zero = zero
twice (suc n) = suc (suc (twice n))

-- A generator that is not parked, whose STEP pin is at the level on record, raises STEP exactly n times
-- in 2 n interrupts, and is then as it was.
pub interrupts-twice :
    (n : ℕ) (g : StepGen) (level : Bool)
    → 0 < g.half_period_ticks
    → interrupts (twice n) (at_level g level) ≡ (n, at_level g level)
unfolding interrupts
interrupts-twice zero g level ticking = refl
interrupts-twice (suc n) g level ticking =
    interrupts-two g (twice n) level ticking
    ∙ ap (λ (r : ℕ × StepGen). (suc r.0, r.1)) (interrupts-twice n g level ticking)
