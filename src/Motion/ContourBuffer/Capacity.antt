-- ===== src/Motion/ContourBuffer/Capacity.antt =====
-- The buffer never outgrows its capacity and, once it holds a vertex, is never empty again.
use fluid_edm.Base.{
  ℕ, zero, suc, ◌+◌, ◌∙◌, ◌≡◌, ◌≤◌, ◌<◌, refl, List, [], ◌∷◌, ◌++◌, arith, length, length-append,
  length-drop, leb, ◌==◌, if◌then◌else◌, drop, Bool-cases, inl, inr,
}
use fluid_edm.Base.Float.{Float}
use fluid_edm.Motion.Pose4.{Pose4, Cmath}
use fluid_edm.Motion.ContourBuffer.{
  ContourBuffer, Vertex, new_contour, count, chord_length, min_seg_len, reset_contour, push_vertex,
  append_line, append_chords, append_arc, last_below, evict_below,
}

-- one call of the buffer
pub data BufferStep {F : Type 0} ⦃f : Float F⦄ ⦃m : Cmath F⦄
    : ContourBuffer F → ContourBuffer F → Type 0 where
  resets : (b : ContourBuffer F) (p : Pose4 F) (s0 : F) → BufferStep b (reset_contour b p s0)
  lines : (b : ContourBuffer F) (p : Pose4 F) → BufferStep b (append_line b p)
  arcs :
      (b : ContourBuffer F) (p : Pose4 F) (cx cy radius travel tol : F)
      → BufferStep b (append_arc b p cx cy radius travel tol)
  evicts : (b : ContourBuffer F) (s : F) → BufferStep b (evict_below b s)

pub data BufferReach {F : Type 0} ⦃f : Float F⦄ ⦃m : Cmath F⦄
    : ContourBuffer F → ContourBuffer F → Type 0 where
  here : (b : ContourBuffer F) → BufferReach b b
  next : (a b c : ContourBuffer F) → BufferReach a b → BufferStep b c → BufferReach a c

-- `b` is within its capacity, which is that of `a`, and holds a vertex if `a` does.
pub record IsKept {F : Type 0} (a b : ContourBuffer F) : Type 0 where
  pub same_cap : b.cap ≡ a.cap
  pub within : length b.vertices ≤ b.cap
  pub stays : 0 < length a.vertices → 0 < length b.vertices

module _ {F : Type 0} ⦃f : Float F⦄ where
  push-IsKept :
      (b : ContourBuffer F) (p : Pose4 F) (s : F)
      → 0 < b.cap
      → length b.vertices ≤ b.cap
      → IsKept b (push_vertex b p s)
  unfolding push_vertex
  push-IsKept b p s some_room fits =
      let kept = if leb b.cap (length b.vertices) then drop 1 b.vertices else b.vertices in
      let w : List (Vertex F) = record { pose = p; s = s } ∷ [] in
      let grown : length (kept ++ w) ≡ length kept + 1 = length-append kept w in
      let dropped = length-drop 1 b.vertices in
      let small : length kept + 1 ≤ b.cap = ground (arith, dropped) in
      record {
        same_cap = refl;
        within = omega (arith, grown, small);
        stays = λ h. omega (arith, grown);
      }

  last_below-lt :
      (s : F) (ws : List (Vertex F)) (i keep : ℕ)
      → keep < i + length ws
      → last_below s ws i keep < i + length ws
  unfolding last_below
  last_below-lt s [] i keep h = h
  last_below-lt s (w ∷ ws) i keep h =
      let more = last_below-lt s ws (i + 1) i (omega arith) in ground (arith, more)

  evict-IsKept :
      (b : ContourBuffer F) (s : F) → length b.vertices ≤ b.cap → IsKept b (evict_below b s)
  unfolding evict_below
  evict-IsKept b s fits =
      let n = last_below s b.vertices 0 0 in
      let dropped = length-drop n b.vertices in
      elim (Bool-cases (leb (length b.vertices) 1)) [
        | inl one ↦ rw one (record { same_cap = refl; within = fits; stays = λ h. h })
        | inr many ↦
            let some_left : n < length b.vertices =
              omega (arith, last_below-lt s b.vertices 0 0 (ground (arith, many))) in
            rw many (record {
              same_cap = refl;
              within = omega (arith, dropped, fits);
              stays = λ h. omega (arith, dropped, some_left);
            })
      ]

module _ {F : Type 0} ⦃f : Float F⦄ ⦃m : Cmath F⦄ where
  line-IsKept :
      (b : ContourBuffer F) (p : Pose4 F)
      → 0 < b.cap
      → length b.vertices ≤ b.cap
      → IsKept b (append_line b p)
  unfolding append_line
  line-IsKept b p some_room fits = elim (Bool-cases (count b == 0)) [
    | inl first ↦
        rw first
          (record { same_cap = refl; within = omega (arith, some_room); stays = λ h. omega arith })
    | inr more ↦ elim (Bool-cases (f.lt (chord_length b p) min_seg_len)) [
      | inl short ↦ rw (more, short) (record { same_cap = refl; within = fits; stays = λ h. h })
      | inr long ↦ rw (more, long) (push-IsKept b p _ some_room fits)
    ]
  ]

  chords-IsKept :
      (b : ContourBuffer F) (pose : ℕ → Pose4 F) (i more : ℕ)
      → 0 < b.cap
      → length b.vertices ≤ b.cap
      → IsKept b (append_chords b pose i more)
  unfolding append_chords
  chords-IsKept b pose i zero some_room fits = record {
    same_cap = refl;
    within = fits;
    stays = λ h. h;
  }
  chords-IsKept b pose i (suc more) some_room fits =
      let one = line-IsKept b (pose i) some_room fits in
      let rest =
        chords-IsKept (append_line b (pose i)) pose (i + 1) more (omega (arith, one.same_cap))
          one.within in
      record {
        same_cap = rest.same_cap ∙ one.same_cap;
        within = rest.within;
        stays = λ h. rest.stays (one.stays h);
      }

  step-IsKept :
      (a b : ContourBuffer F) → BufferStep a b → 0 < a.cap → length a.vertices ≤ a.cap → IsKept a b
  unfolding reset_contour append_arc
  step-IsKept _ _ (resets a p s0) some_room fits = record {
    same_cap = refl;
    within = omega (arith, some_room);
    stays = λ h. omega arith;
  }
  step-IsKept _ _ (lines a p) some_room fits = line-IsKept a p some_room fits
  step-IsKept _ _ (arcs a p cx cy radius travel tol) some_room fits =
      elim (Bool-cases (count a == 0)) [
        | inl none_yet ↦ rw none_yet (record { same_cap = refl; within = fits; stays = λ h. h })
        | inr some_yet ↦ rw some_yet (chords-IsKept a _ 1 _ some_room fits)
      ]
  step-IsKept _ _ (evicts a s) some_room fits = evict-IsKept a s fits

  -- After any calls on a new buffer whose capacity is not zero, the buffer holds at most as many
  -- vertices as its capacity, which never changes.
  pub buffer_bound :
      (cap : ℕ) (b : ContourBuffer F)
      → 0 < cap
      → BufferReach (new_contour cap) b
      → (b.cap ≡ cap) × (count b ≤ cap)
  buffer_bound cap _ some_room (here _) = (refl, omega arith)
  buffer_bound cap _ some_room (next _ b c r s) =
      let (same, fits) = buffer_bound cap b some_room r in
      let kept = step-IsKept b c s (omega (arith, same)) (omega (arith, same, fits)) in
      (kept.same_cap ∙ same, omega (arith, kept.within, kept.same_cap, same))
