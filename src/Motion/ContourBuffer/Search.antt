-- ===== src/Motion/ContourBuffer/Search.antt =====
-- The binary search of `poseAt`.
use fluid_edm.Base.{
  ℕ, zero, suc, ◌+◌, ◌-◌, ◌/◌, ◌≡◌, ◌≤◌, ◌<◌, true, false, ◌==◌, arith, ltb, Bool-cases, inl, inr,
  ◌∙◌, ap, sym,
}
use fluid_edm.Base.Float.{Float}
use fluid_edm.Motion.ContourBuffer.{
  ContourBuffer, vertex_at, count, front, back, search, pose_at, pose_between,
}

no_fuel : (lo hi : ℕ) → lo < hi → hi - lo ≤ 0 → 0 < 0
no_fuel lo hi less enough = omega arith

module _ {F : Type 0} ⦃f : Float F⦄ where
  open f use {le}

  -- The indices are neighbours, in [lo, hi], and their arc lengths enclose s.
  pub record IsBracket (b : ContourBuffer F) (s : F) (lo hi : ℕ) (r : ℕ × ℕ) : Type 0 where
    pub adjacent : r.1 ≡ suc r.0
    pub above : lo ≤ r.0
    pub below : r.1 ≤ hi
    pub reached : le (vertex_at b r.0).s s ≡ true
    pub ahead : le (vertex_at b r.1).s s ≡ false

  -- From indices lo < hi whose arc lengths enclose s, the loop ends within hi - lo rounds at
  -- neighbours in [lo, hi] whose arc lengths enclose s.
  pub search-IsBracket :
      (b : ContourBuffer F) (s : F) (fuel lo hi : ℕ)
      → lo < hi
      → hi - lo ≤ fuel
      → le (vertex_at b lo).s s ≡ true
      → le (vertex_at b hi).s s ≡ false
      → IsBracket b s lo hi (search b s fuel lo hi)
  unfolding search
  search-IsBracket b s zero lo hi less enough p q = elim (no_fuel lo hi less enough) [ ]
  search-IsBracket b s (suc fuel) lo hi less enough p q = elim (Bool-cases (ltb 1 (hi - lo))) [
    | inl far ↦
        let mid = (lo + hi) / 2 in
        let up : lo < mid = ground (arith, far) in
        let down : mid < hi = ground (arith, far) in
        elim (Bool-cases (le (vertex_at b mid).s s)) [
          | inl low ↦
              let r = search-IsBracket b s fuel mid hi down (omega arith) low q in
              rw (far, low)
                (record {
                  adjacent = r.adjacent;
                  above = omega (arith, r.above);
                  below = r.below;
                  reached = r.reached;
                  ahead = r.ahead;
                })
          | inr high ↦
              let r = search-IsBracket b s fuel lo mid up (omega arith) p high in
              rw (far, high)
                (record {
                  adjacent = r.adjacent;
                  above = r.above;
                  below = omega (arith, r.below);
                  reached = r.reached;
                  ahead = r.ahead;
                })
        ]
    | inr near ↦ rw near (record {
      adjacent = ground (arith, near);
      above = omega arith;
      below = omega arith;
      reached = p;
      ahead = q;
    })
  ]

  -- Strictly inside the contour, that is from the first vertex on but not at or behind the last, the
  -- pose at s lies between two neighbouring vertices whose arc lengths enclose s.
  pub pose_at-bracket :
      (b : ContourBuffer F) (s : F)
      → le s (front b).s ≡ false
      → le (front b).s s ≡ true
      → le (back b).s s ≡ false
      → (i : ℕ) × (suc i < count b)
        × (le (vertex_at b i).s s ≡ true)
        × (le (vertex_at b (suc i)).s s ≡ false)
        × (pose_at b s ≡ pose_between b s (i, suc i))
  unfolding pose_at
  pose_at-bracket b s p q r =
      let last = count b - 1 in
      let wide : 0 < last = ground (arith, q, r) in
      let found = search-IsBracket b s (count b) 0 last wide (omega arith) q r in
      let (i, j) = search b s (count b) 0 last in
      let some_there : (count b == 0) ≡ false = ground (arith, wide) in
      (
        i,
        omega (arith, wide, found.adjacent, found.below),
        found.reached,
        ap (λ (n : ℕ). le (vertex_at b n).s s) (sym found.adjacent) ∙ found.ahead,
        rw (some_there, p, r)
            (ap (λ (n : ℕ). pose_between b s ((search b s (count b) 0 last).0, n)) found.adjacent),
      )
