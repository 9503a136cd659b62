-- ===== src/Motion/ContourBuffer/Window.antt =====
-- What a buffer keeps of a contour with more vertices than it has room for.
use fluid_edm.Base.{
  ℕ, zero, suc, ◌+◌, ◌-◌, ◌≡◌, ◌≤◌, ◌<◌, refl, sym, ap, ◌∙◌, List, [], ◌∷◌, ◌++◌, arith, length,
  length-append, length-drop, get_or, leb, ltb, ◌==◌, if◌then◌else◌, drop, true, false, if-elim,
  Bool-cases, inl, inr,
}
use fluid_edm.Base.Int.{pos_part}
use fluid_edm.Base.Float.{Float}
use fluid_edm.Motion.Pose4.{Pose4, Cmath, xy_chord, uv_chord}
use fluid_edm.Motion.ContourBuffer.{
  ContourBuffer, Vertex, count, back, no_vertex, chord_length, min_seg_len, push_vertex,
  append_line, append_chords, append_arc, arc_segments, arc_pose,
}

module _ {A : Type 0} where
  drop-drop : (n : ℕ) (xs : List A) → drop 1 (drop n xs) ≡ drop (n + 1) xs
  drop-drop zero xs = refl
  drop-drop (suc n) [] = let next : suc n + 1 ≡ suc (n + 1) = omega arith in rw next refl
  drop-drop (suc n) (x ∷ xs) =
      let next : suc n + 1 ≡ suc (n + 1) = omega arith in rw next (drop-drop n xs)

  drop-append : (n : ℕ) (xs ys : List A) → n ≤ length xs → drop n (xs ++ ys) ≡ drop n xs ++ ys
  drop-append zero xs ys h = refl
  drop-append (suc n) [] ys h = absurd (omega arith)
  drop-append (suc n) (x ∷ xs) ys h = drop-append n xs ys (omega arith)

  -- The last element stays.
  get_or-drop :
      (n : ℕ) (xs : List A) (d : A)
      → n < length xs
      → get_or (drop n xs) (length (drop n xs) - 1) d ≡ get_or xs (length xs - 1) d
  get_or-drop zero xs d h = refl
  get_or-drop (suc n) [] d h = absurd (omega arith)
  get_or-drop (suc n) (x ∷ []) d h = absurd (omega arith)
  get_or-drop (suc n) (x ∷ y ∷ ys) d h =
      let outer : suc (suc (length ys)) - 1 ≡ suc (length ys) = omega arith in
      let inner : suc (length ys) - 1 ≡ length ys = omega arith in
      rw outer (get_or-drop n (y ∷ ys) d (omega arith) ∙ (rw inner refl))

module _ {F : Type 0} ⦃f : Float F⦄ where
  -- `b` holds the last vertices of `whole`, as many as its capacity allows.
  abbrev pub IsWindow : ContourBuffer F → ContourBuffer F → Type 0
  IsWindow b whole =
      (b.vertices ≡ drop (length whole.vertices - b.cap) whole.vertices)
      × (0 < length whole.vertices)
      × (0 < b.cap)

  push-IsWindow :
      (b whole : ContourBuffer F) (p : Pose4 F) (s : F)
      → length whole.vertices < whole.cap
      → IsWindow b whole
      → IsWindow (push_vertex b p s) (push_vertex whole p s)
  unfolding push_vertex
  push-IsWindow b whole p s free (kept, some_vertex, some_room) =
      let w : List (Vertex F) = record { pose = p; s = s } ∷ [] in
      let size = length whole.vertices in
      let over = size - b.cap in
      let held : length b.vertices ≡ size - over =
        ap (λ (vs : List (Vertex F)). length vs) kept ∙ length-drop over whole.vertices in
      let room_left : leb whole.cap size ≡ false = ground (arith, free) in
      let grown : length (whole.vertices ++ w) ≡ size + 1 = length-append whole.vertices w in
      rw (room_left, grown)
        (
          elim (Bool-cases (leb b.cap (length b.vertices))) [
            | inl full ↦
                let more : size + 1 - b.cap ≡ over + 1 = ground (arith, held, full, some_room) in
                rw (full, kept, more)
                  (ap (λ (vs : List (Vertex F)). vs ++ w) (drop-drop over whole.vertices)
                    ∙ sym (
                        drop-append (over + 1) whole.vertices w
                          (ground (arith, held, full, some_room))))
            | inr free ↦
                let none : size + 1 - b.cap ≡ 0 = ground (arith, held, free) in
                let none_over : over ≡ 0 = ground (arith, held, free) in
                rw (free, none)
                  (ap (λ (vs : List (Vertex F)). vs ++ w)
                    (kept ∙ ap (λ (n : ℕ). drop n whole.vertices) none_over))
          ],
          omega arith,
          some_room,
        )

  window-length : (b whole : ContourBuffer F) → IsWindow b whole → 0 < length b.vertices
  window-length b whole (kept, some_vertex, some_room) =
      let over = length whole.vertices - b.cap in
      let held : length b.vertices ≡ length whole.vertices - over =
        ap (λ (vs : List (Vertex F)). length vs) kept ∙ length-drop over whole.vertices in
      omega (arith, held)

  window-back : (b whole : ContourBuffer F) → IsWindow b whole → back b ≡ back whole
  window-back b whole (kept, some_vertex, some_room) =
      ap (λ (vs : List (Vertex F)). get_or vs (length vs - 1) no_vertex) kept
      ∙ get_or-drop (length whole.vertices - b.cap) whole.vertices no_vertex (omega arith)

  window-start :
      (b whole : ContourBuffer F)
      → IsWindow b whole
      → ((count b == 0) ≡ false) × ((count whole == 0) ≡ false)
  window-start b whole h =
      let held = window-length b whole h in (ground (arith, held), ground (arith, h.1))

module _ {F : Type 0} ⦃f : Float F⦄ ⦃m : Cmath F⦄ where
  append_line_short :
      (b : ContourBuffer F) (p : Pose4 F)
      → (count b == 0) ≡ false
      → f.lt (chord_length b p) min_seg_len ≡ true
      → append_line b p ≡ b
  unfolding append_line
  append_line_short b p held short = rw (held, short) refl

  append_line_long :
      (b : ContourBuffer F) (p : Pose4 F)
      → (count b == 0) ≡ false
      → f.lt (chord_length b p) min_seg_len ≡ false
      → append_line b p ≡ push_vertex b p (f.add (back b).s (chord_length b p))
  unfolding append_line
  append_line_long b p held long = rw (held, long) refl

  line-IsWindow :
      (b whole : ContourBuffer F) (p : Pose4 F)
      → length whole.vertices < whole.cap
      → IsWindow b whole
      → IsWindow (append_line b p) (append_line whole p)
  line-IsWindow b whole p free h =
      let (some_b, some_whole) = window-start b whole h in
      let same = window-back b whole h in
      let chord : chord_length b p ≡ chord_length whole p =
        unfold chord_length in
        ap
          (λ (v : Vertex F).
            if f.lt (xy_chord v.pose p) min_seg_len then uv_chord v.pose p else xy_chord v.pose p)
          same in
      let step : f.add (back b).s (chord_length b p) ≡ f.add (back whole).s (chord_length whole p) =
        rw (same, chord) refl in
      elim (Bool-cases (f.lt (chord_length whole p) min_seg_len)) [
        | inl short ↦
            rw
              (
                append_line_short b p some_b (rw chord short),
                append_line_short whole p some_whole short,
              )
              h
        | inr long ↦
            rw
              (
                append_line_long b p some_b (rw chord long),
                append_line_long whole p some_whole long,
                step,
              )
              (push-IsWindow b whole p (f.add (back whole).s (chord_length whole p)) free h)
      ]

  append_line_grows :
      (b : ContourBuffer F) (p : Pose4 F)
      → length (append_line b p).vertices ≤ length b.vertices + 1 × ((append_line b p).cap ≡ b.cap)
  unfolding append_line push_vertex
  append_line_grows b p =
      let w : List (Vertex F) = record { pose = p; s = f.add (back b).s (chord_length b p) } ∷ [] in
      let Grown : ContourBuffer F → Type 0 =
        λ c. (length c.vertices ≤ length b.vertices + 1) × (c.cap ≡ b.cap) in
      if-elim Grown (count b == 0) (λ _. (omega arith, refl))
        (λ _.
          if-elim Grown (f.lt (chord_length b p) min_seg_len) (λ _. (omega arith, refl))
            (λ _. (
              if-elim (λ (vs : List (Vertex F)). length (vs ++ w) ≤ length b.vertices + 1)
                  (leb b.cap (count b))
                  (λ _.
                    omega (arith, length-append (drop 1 b.vertices) w, length-drop 1 b.vertices))
                  (λ _. omega (arith, length-append b.vertices w)),
              refl,
            )))

  chords-IsWindow :
      (b whole : ContourBuffer F) (pose : ℕ → Pose4 F) (i n : ℕ)
      → length whole.vertices + n ≤ whole.cap
      → IsWindow b whole
      → IsWindow (append_chords b pose i n) (append_chords whole pose i n)
  unfolding append_chords
  chords-IsWindow b whole pose i zero free h = h
  chords-IsWindow b whole pose i (suc n) free h =
      let (grown, same_cap) = append_line_grows whole (pose i) in
      chords-IsWindow (append_line b (pose i)) (append_line whole (pose i)) pose (i + 1) n
        (omega (arith, grown, same_cap)) (line-IsWindow b whole (pose i) (omega arith) h)

  -- A buffer that holds the last vertices of a contour, as many as its capacity allows, still does when
  -- an arc is appended to both, if the whole contour has room for every chord of the arc.
  pub append_arc-IsWindow :
      (b whole : ContourBuffer F) (end : Pose4 F) (cx cy radius travel tol : F)
      → length whole.vertices + (pos_part (arc_segments radius travel tol) + 1) ≤ whole.cap
      → IsWindow b whole
      → IsWindow
          (append_arc b end cx cy radius travel tol)
          (append_arc whole end cx cy radius travel tol)
  unfolding append_arc
  append_arc-IsWindow b whole end cx cy radius travel tol free h =
      let (some_b, some_whole) = window-start b whole h in
      let same = window-back b whole h in
      let asked = pos_part (arc_segments radius travel tol) in
      let segs : ℕ = if ltb asked 1 then 1 else asked in
      let fits : length whole.vertices + segs ≤ whole.cap = ground (arith, free) in
      rw (some_b, some_whole, same)
        (chords-IsWindow b whole (arc_pose (back whole).pose end cx cy radius travel segs) 1 segs
          fits h)
